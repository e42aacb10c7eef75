-- ===== src/RestRequest/Actions.antt =====
-- src/fir/RestRequest.cpp, the switch of `parse`, and the private members of
-- include/swirly/fir/RestRequest.hpp: what the parser keeps, and what each action does to it. `char` is
-- signed.
use swirlyc.Common.{ℕ, ◌+◌, ◌-◌, ◌*◌, ◌%◌, ltb, Bool, not, if◌then◌else◌, ℤ, pos, negsuc, ltb_ℤ}
use swirlyc.Text.{Str}
use swirlyc.Text.Number.{two64}
use swirlyc.Rec.{display_max, email_max, mnem_max}
use swirlyc.Serv.Create.{ref_max}
use swirlyc.Bits.{Bits, and, or, complement}
use swirlyc.RestRequest
use swirlyc.RestRequest.{RestRequest}

-- The fields that are strings.
pub data TextField : Type 0 where
  mnem display email trader contr ref cpty : TextField

-- The union of `num_` and `str_`: the part that was written last, or none before the first. A pointer
-- to a field's buffer is the field.
pub data Scratch : Type 0 where
  unset : Scratch
  number : ℤ → ℕ → Scratch
  text : TextField → Scratch

pub record Parser : Type 0 where
  pub cs : ℕ
  pub scratch : Scratch
  pub request : RestRequest

abbrev pub json_start : ℕ
json_start = 1

abbrev pub json_first_final : ℕ
json_first_final = 227

abbrev pub json_error : ℕ
json_error = 0

-- `reset`: it leaves the union as it is.
unfoldable pub reset_parser : Bool → Parser → Parser
reset_parser clear p =
    if not clear
    then record p { cs = json_start }
    else record p { cs = json_start; request = RestRequest.reset }

-- What an action does: the parser goes on, or it leaves the loop. A fault is a read of the part of the
-- union that was not written.
pub data Acted : Type 0 where
  go stop : Parser → Acted
  fault : Acted

-- 64-bit words and the integers they stand for; an `int` of a `long`.
abbrev pub word64 : ℤ → ℕ
word64 (pos n) = n % two64
word64 (negsuc n) = (two64 - 1) - n % two64

abbrev pub signed64 : ℕ → ℤ
signed64 w = if ltb w 9223372036854775808 then pos w else negsuc (two64 - 1 - w)

abbrev pub signed32 : ℕ → ℤ
signed32 w = if ltb w 2147483648 then pos w else negsuc (4294967296 - 1 - w)

-- `num`.
unfoldable pub num : ℤ → ℕ → ℤ
num sign digits = signed64 (word64 sign * digits % two64)

-- A `char` as a `size_t`.
abbrev pub widen : ℕ → ℕ
widen c = if ltb c 128 then c else two64 - 256 + c

-- The digits so far with one more.
unfoldable pub push_digit : ℕ → ℕ → ℕ
push_digit digits c = (digits * 10 + (widen c + (two64 - b'0')) % two64) % two64

abbrev pub max_of : TextField → ℕ
max_of TextField.mnem = mnem_max
max_of TextField.display = display_max
max_of TextField.email = email_max
max_of TextField.trader = mnem_max
max_of TextField.contr = mnem_max
max_of TextField.ref = ref_max
max_of TextField.cpty = mnem_max

abbrev pub bit_of : TextField → Bits
bit_of TextField.mnem = RestRequest.mnem_bit
bit_of TextField.display = RestRequest.display_bit
bit_of TextField.email = RestRequest.email_bit
bit_of TextField.trader = RestRequest.trader_bit
bit_of TextField.contr = RestRequest.contr_bit
bit_of TextField.ref = RestRequest.ref_bit
bit_of TextField.cpty = RestRequest.cpty_bit

abbrev pub text_of : TextField → RestRequest → Str
text_of TextField.mnem r = r.mnem
text_of TextField.display r = r.display
text_of TextField.email r = r.email
text_of TextField.trader r = r.trader
text_of TextField.contr r = r.contr
text_of TextField.ref r = r.ref
text_of TextField.cpty r = r.cpty

abbrev pub set_text : TextField → Str → RestRequest → RestRequest
set_text TextField.mnem s r = record r { mnem = s }
set_text TextField.display s r = record r { display = s }
set_text TextField.email s r = record r { email = s }
set_text TextField.trader s r = record r { trader = s }
set_text TextField.contr s r = record r { contr = s }
set_text TextField.ref s r = record r { ref = s }
set_text TextField.cpty s r = record r { cpty = s }

-- The fields that are numbers.
pub data NumField : Type 0 where
  settl_date expiry_date state ticks lots min_lots : NumField

abbrev pub num_bit : NumField → Bits
num_bit NumField.settl_date = RestRequest.settl_date_bit
num_bit NumField.expiry_date = RestRequest.expiry_date_bit
num_bit NumField.state = RestRequest.state_bit
num_bit NumField.ticks = RestRequest.ticks_bit
num_bit NumField.lots = RestRequest.lots_bit
num_bit NumField.min_lots = RestRequest.min_lots_bit

abbrev pub given_bit : Bits → RestRequest → RestRequest
given_bit b r = record r { fields = or r.fields b }

abbrev pub null_bit : Bits → RestRequest → RestRequest
null_bit b r = record r { fields = and r.fields (complement b) }

-- A field that is null.
abbrev pub null_num : NumField → RestRequest → RestRequest
null_num NumField.settl_date r = record r { settl_date = pos 0 }
null_num NumField.expiry_date r = record r { expiry_date = pos 0 }
null_num NumField.state r = record r { state = 0 }
null_num NumField.ticks r = record r { ticks = pos 0 }
null_num NumField.lots r = record r { lots = pos 0 }
null_num NumField.min_lots r = record r { min_lots = pos 0 }

-- The number at the end of a field: `box` of `num`, or `num` for the state.
unfoldable pub set_num : NumField → ℤ → ℕ → Parser → Acted
unfolding num
set_num NumField.settl_date sign digits p = Acted.go (record p {
  request = record (given_bit RestRequest.settl_date_bit p.request) {
    settl_date = signed32 (word64 (num sign digits) % 4294967296);
  };
})
set_num NumField.expiry_date sign digits p = Acted.go (record p {
  request = record (given_bit RestRequest.expiry_date_bit p.request) {
    expiry_date = signed32 (word64 (num sign digits) % 4294967296);
  };
})
set_num NumField.state sign digits p =
    if not (ltb_ℤ sign (pos 0))
    then Acted.go (record p {
      request = record (given_bit RestRequest.state_bit p.request) {
        state = word64 (num sign digits) % 4294967296;
      };
    })
    else Acted.go (record p { cs = json_error })
set_num NumField.ticks sign digits p = Acted.go (record p {
  request = record (given_bit RestRequest.ticks_bit p.request) { ticks = num sign digits };
})
set_num NumField.lots sign digits p = Acted.go (record p {
  request = record (given_bit RestRequest.lots_bit p.request) { lots = num sign digits };
})
set_num NumField.min_lots sign digits p = Acted.go (record p {
  request = record (given_bit RestRequest.min_lots_bit p.request) { min_lots = num sign digits };
})
