-- ===== src/RestRequest/Fields.antt =====
-- include/swirly/fir/RestRequest.hpp: what `valid` tests.
use swirlyc.Common.{◌≡◌, ◌↔◌, arith, true, not, ◌&&◌, [], ◌∷◌, length, ◌⊎◌}
use swirlyc.Bits.{Bits, and, or, complement, nonzero, bits_eq}
use swirlyc.RestRequest.{RestRequest, valid}

-- Each required field is given, and each field that is given is required or optional.
abbrev pub IsGiven : Bits → Bits → Bits → Type 0
IsGiven (f ∷ fs) (r ∷ rs) (o ∷ os) =
    ((r ≡ true → f ≡ true) × (f ≡ true → (r ≡ true) ⊎ (o ≡ true))) × IsGiven fs rs os
IsGiven _ _ _ = Unit {0}

given :
    (fs rs os : Bits)
    → length rs ≡ length fs
    → length os ≡ length fs
    → ((bits_eq (and fs rs) rs && not (nonzero (and fs (complement (or rs os))))) ≡ true)
      ↔ IsGiven fs rs os
given [] [] [] e d = ground arith
given (f ∷ fs) (r ∷ rs) (o ∷ os) e d =
    ground (arith, given fs rs os (omega (arith, e)) (omega (arith, d)))
given [] (r ∷ rs) os e d = absurd (omega (arith, e))
given [] [] (o ∷ os) e d = absurd (omega (arith, d))
given (f ∷ fs) [] os e d = absurd (omega (arith, e))
given (f ∷ fs) (r ∷ rs) [] e d = absurd (omega (arith, d))

-- The fields of a request are valid exactly if each required one is given and each given one is
-- required or optional.
pub valid_iff :
    (required optional : Bits) (r : RestRequest)
    → length required ≡ length r.fields
    → length optional ≡ length r.fields
    → (valid required optional r ≡ true) ↔ IsGiven r.fields required optional
unfolding valid
valid_iff required optional r e d = given r.fields required optional e d
