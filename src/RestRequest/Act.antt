-- ===== src/RestRequest/Act.antt =====
-- src/fir/RestRequest.cpp: the cases of the switch of `parse`, and the loop over the actions of a
-- transition. An entry past the end of a table is read as 0.
use swirlyc.Common.{
  ℕ, zero, suc, ◌+◌, ltb, List, [], ◌∷◌, ◌++◌, length, Option, none, some, if◌then◌else◌, pos,
  negsuc, ℤ,
}
use swirlyc.Domain.{Side, Role}
use swirlyc.RestRequest
use swirlyc.RestRequest.{RestRequest}
use swirlyc.RestRequest.States.{json_actions}
use swirlyc.RestRequest.Actions.{
  TextField, NumField, Scratch, Parser, Acted, push_digit, max_of, bit_of, text_of, set_text,
  num_bit, given_bit, null_bit, null_num, set_num, json_error,
}

-- The actions that a field has, and those that fields share.
pub data Action : Type 0 where
  begin_number negate add_digit begin_text add_char : Action
  null_text select given_text : TextField → Action
  null_number end_number : NumField → Action
  null_side buy_side sell_side null_role maker_role taker_role : Action

-- The cases of the switch, in their order.
abbrev pub cases : List Action
cases =
    Action.begin_number
    ∷ Action.negate
    ∷ Action.add_digit
    ∷ Action.begin_text
    ∷ Action.add_char
    ∷ Action.null_text TextField.mnem
    ∷ Action.select TextField.mnem
    ∷ Action.given_text TextField.mnem
    ∷ Action.null_text TextField.display
    ∷ Action.select TextField.display
    ∷ Action.given_text TextField.display
    ∷ Action.null_text TextField.email
    ∷ Action.select TextField.email
    ∷ Action.given_text TextField.email
    ∷ Action.null_text TextField.trader
    ∷ Action.select TextField.trader
    ∷ Action.given_text TextField.trader
    ∷ Action.null_text TextField.contr
    ∷ Action.select TextField.contr
    ∷ Action.given_text TextField.contr
    ∷ Action.null_number NumField.settl_date
    ∷ Action.end_number NumField.settl_date
    ∷ Action.null_number NumField.expiry_date
    ∷ Action.end_number NumField.expiry_date
    ∷ Action.null_text TextField.ref
    ∷ Action.select TextField.ref
    ∷ Action.given_text TextField.ref
    ∷ Action.null_number NumField.state
    ∷ Action.end_number NumField.state
    ∷ Action.null_number NumField.ticks
    ∷ Action.end_number NumField.ticks
    ∷ Action.null_side
    ∷ Action.buy_side
    ∷ Action.sell_side
    ∷ Action.null_number NumField.lots
    ∷ Action.end_number NumField.lots
    ∷ Action.null_number NumField.min_lots
    ∷ Action.end_number NumField.min_lots
    ∷ Action.null_role
    ∷ Action.maker_role
    ∷ Action.taker_role
    ∷ Action.null_text TextField.cpty
    ∷ Action.select TextField.cpty
    ∷ Action.given_text TextField.cpty
    ∷ []

-- An entry of a table.
abbrev pub get_elem? {ℓ} : {A : Type ℓ} → List A → ℕ → Option A
get_elem? [] i = none
get_elem? (x ∷ xs) zero = some x
get_elem? (x ∷ xs) (suc i) = get_elem? xs i

abbrev pub entry : List ℕ → ℕ → ℕ
entry [] i = 0
entry (x ∷ xs) zero = x
entry (x ∷ xs) (suc i) = entry xs i

abbrev update : (RestRequest → RestRequest) → Parser → Acted
update f p = Acted.go (record p { request = f p.request })

-- On the number, or on the string, that the union holds.
abbrev pub on_number : (ℤ → ℕ → Acted) → Scratch → Acted
on_number f (Scratch.number sign digits) = f sign digits
on_number f Scratch.unset = Acted.fault
on_number f (Scratch.text t) = Acted.fault

abbrev pub on_text : (TextField → Acted) → Scratch → Acted
on_text f (Scratch.text t) = f t
on_text f Scratch.unset = Acted.fault
on_text f (Scratch.number sign digits) = Acted.fault

-- `addChar`.
unfoldable pub append_char : ℕ → Parser → TextField → Acted
append_char c p t =
    if ltb (length (text_of t p.request)) (max_of t)
    then update (set_text t (text_of t p.request ++ c ∷ [])) p
    else Acted.stop (record p { cs = json_error })

-- One case of the switch, at the character c.
unfoldable pub act : ℕ → Action → Parser → Acted
unfolding push_digit set_num append_char
act c Action.begin_number p = Acted.go (record p { scratch = Scratch.number (pos 1) 0 })
act c Action.negate p =
    on_number (λ sign digits. Acted.go (record p { scratch = Scratch.number (negsuc 0) digits }))
      p.scratch
act c Action.add_digit p =
    on_number
      (λ sign digits. Acted.go (record p { scratch = Scratch.number sign (push_digit digits c) }))
      p.scratch
act c Action.begin_text p = on_text (λ t. update (set_text t []) p) p.scratch
act c Action.add_char p = on_text (append_char c p) p.scratch
act c (Action.null_text t) p = update (λ r. set_text t [] (null_bit (bit_of t) r)) p
act c (Action.select t) p = Acted.go (record p { scratch = Scratch.text t })
act c (Action.given_text t) p = update (given_bit (bit_of t)) p
act c (Action.null_number n) p = update (λ r. null_num n (null_bit (num_bit n) r)) p
act c (Action.end_number n) p = on_number (λ sign digits. set_num n sign digits p) p.scratch
act c Action.null_side p = update (λ r. record (null_bit RestRequest.side_bit r) { side = none }) p
act c Action.buy_side p =
    update (λ r. record (given_bit RestRequest.side_bit r) { side = some Side.buy }) p
act c Action.sell_side p =
    update (λ r. record (given_bit RestRequest.side_bit r) { side = some Side.sell }) p
act c Action.null_role p =
    update (λ r. record (null_bit RestRequest.role_bit r) { role = Role.none }) p
act c Action.maker_role p =
    update (λ r. record (given_bit RestRequest.role_bit r) { role = Role.maker }) p
act c Action.taker_role p =
    update (λ r. record (given_bit RestRequest.role_bit r) { role = Role.taker }) p

-- What follows an action that goes on.
abbrev pub and_then : Acted → (Parser → Acted) → Acted
and_then (Acted.go p) f = f p
and_then (Acted.stop p) f = Acted.stop p
and_then Acted.fault f = Acted.fault

-- The loop over the n numbers of actions from the entry a on. A number without a case does nothing.
unfoldable pub acts : ℕ → ℕ → ℕ → Parser → Acted
unfolding json_actions act
acts zero a c p = Acted.go p
acts (suc n) a c p = elim (get_elem? cases (entry json_actions a)) [
  | none ↦ acts n (a + 1) c p
  | some i ↦ and_then (act c i p) (acts n (a + 1) c)
]
