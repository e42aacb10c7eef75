-- ===== src/RestRequest/Printing.antt =====
-- The printing of a field that is a string, as src/fir/RestRequest.cpp reads it, and the states in which
-- the machine reads it.
use swirlyc.Common.{ℕ, ◌≡◌, refl, Bool, true, ◌&&◌, ◌||◌, [], ◌∷◌, ◌++◌, if◌then◌else◌, ◌==◌}
use swirlyc.Text.{Str, codes}
use swirlyc.RestRequest.{RestRequest}
use swirlyc.RestRequest.Actions.{TextField, Scratch, Parser, bit_of, set_text, given_bit}
use swirlyc.RestRequest.Machine.{transition}
use swirlyc.RestRequest.Kinds.{all_below}

abbrev pub name : TextField → Str
name TextField.mnem = codes "mnem"
name TextField.display = codes "display"
name TextField.email = codes "email"
name TextField.trader = codes "trader"
name TextField.contr = codes "contr"
name TextField.ref = codes "ref"
name TextField.cpty = codes "cpty"

-- A backslash stands before a quotation mark and before a backslash.
abbrev pub is_special : ℕ → Bool
is_special c = (c == 34) || (c == 92)

abbrev pub escape : Str → Str
escape [] = []
escape (c ∷ s) = if is_special c then 92 ∷ c ∷ escape s else c ∷ escape s

abbrev pub opening : Str → Str
opening n = b'{' ∷ 34 ∷ n ++ 34 ∷ b':' ∷ 34 ∷ []

abbrev pub closing : Str
closing = 34 ∷ b'}' ∷ []

-- The states within the string, and after a backslash there.
abbrev pub inside : TextField → ℕ
inside TextField.mnem = 111
inside TextField.display = 41
inside TextField.email = 55
inside TextField.trader = 220
inside TextField.contr = 11
inside TextField.ref = 123
inside TextField.cpty = 25

abbrev pub escaped : TextField → ℕ
escaped TextField.mnem = 113
escaped TextField.display = 43
escaped TextField.email = 57
escaped TextField.trader = 222
escaped TextField.contr = 15
escaped TextField.ref = 125
escaped TextField.cpty = 27

-- Their transitions on a character that is not special, and on any.
abbrev pub plain_step : TextField → ℕ
plain_step TextField.mnem = 379
plain_step TextField.display = 148
plain_step TextField.email = 193
plain_step TextField.trader = 741
plain_step TextField.contr = 53
plain_step TextField.ref = 418
plain_step TextField.cpty = 99

abbrev pub escaped_step : TextField → ℕ
escaped_step TextField.mnem = 385
escaped_step TextField.display = 154
escaped_step TextField.email = 199
escaped_step TextField.trader = 747
escaped_step TextField.contr = 68
escaped_step TextField.ref = 424
escaped_step TextField.cpty = 105

-- The parser after the characters t of the string.
abbrev pub at_text : TextField → Str → RestRequest → Parser
at_text f t r = record { cs = inside f; scratch = Scratch.text f; request = set_text f t r }

abbrev pub after_backslash : TextField → Str → RestRequest → Parser
after_backslash f t r = record (at_text f t r) { cs = escaped f }

abbrev pub at_end : TextField → Str → RestRequest → Parser
at_end f t r = record {
  cs = 227;
  scratch = Scratch.text f;
  request = given_bit (bit_of f) (set_text f t r);
}

unfoldable pub plain_ok : TextField → ℕ → Bool
unfolding transition
plain_ok f c =
    (is_special c || (transition (inside f) c == plain_step f))
    && (transition (escaped f) c == escaped_step f)

pub all_plain : (f : TextField) → all_below 256 (plain_ok f) ≡ true
unfolding plain_ok
all_plain TextField.mnem = refl
all_plain TextField.display = refl
all_plain TextField.email = refl
all_plain TextField.trader = refl
all_plain TextField.contr = refl
all_plain TextField.ref = refl
all_plain TextField.cpty = refl
