-- ===== src/RestRequest.antt =====
-- include/swirly/fir/RestRequest.hpp and `reset` of src/fir/RestRequest.cpp: the fields that the body
-- of a request gives, and the test on which of them are given.
use swirlyc.Common.{ℕ, ℤ, pos, Bool, ◌&&◌, not, List, [], Option, none, some}
use swirlyc.Domain.{Lots, Ticks, Side, Role}
use swirlyc.Text.{Str}
use swirlyc.Bits.{Bits, zeros, bit, and, or, complement, nonzero, bits_eq}
pub mod States
pub mod Transitions
pub mod Actions
pub mod Act
pub mod Machine
pub mod Feed
pub mod Numbers
pub mod Digits
pub mod Strings
pub mod Printing
pub mod Pieces
pub mod Body
pub mod Invariant
pub mod Chosen
pub mod Ranges
pub mod Search
pub mod Safe
pub mod Bounds
pub mod Kinds
pub mod Fields

abbrev pub mnem_bit : Bits
mnem_bit = bit 0

abbrev pub display_bit : Bits
display_bit = bit 1

abbrev pub email_bit : Bits
email_bit = bit 2

abbrev pub trader_bit : Bits
trader_bit = bit 3

abbrev pub contr_bit : Bits
contr_bit = bit 4

abbrev pub settl_date_bit : Bits
settl_date_bit = bit 5

abbrev pub expiry_date_bit : Bits
expiry_date_bit = bit 6

abbrev pub ref_bit : Bits
ref_bit = bit 7

abbrev pub state_bit : Bits
state_bit = bit 8

abbrev pub side_bit : Bits
side_bit = bit 9

abbrev pub lots_bit : Bits
lots_bit = bit 10

abbrev pub ticks_bit : Bits
ticks_bit = bit 11

abbrev pub min_lots_bit : Bits
min_lots_bit = bit 12

abbrev pub role_bit : Bits
role_bit = bit 13

abbrev pub cpty_bit : Bits
cpty_bit = bit 14

-- A side that is not given is the number 0, which is no enumerator.
pub record RestRequest : Type 0 where
  pub fields : Bits
  pub mnem : Str
  pub display : Str
  pub email : Str
  pub trader : Str
  pub contr : Str
  pub settl_date : ℤ
  pub expiry_date : ℤ
  pub ref : Str
  pub state : ℕ
  pub side : Option Side
  pub lots : Lots
  pub ticks : Ticks
  pub min_lots : Lots
  pub role : Role
  pub cpty : Str

-- `reset`, but for the state of the parser.
abbrev pub reset : RestRequest
reset = record {
  fields = zeros 32;
  mnem = [];
  display = [];
  email = [];
  trader = [];
  contr = [];
  settl_date = pos 0;
  expiry_date = pos 0;
  ref = [];
  state = 0;
  side = none;
  lots = pos 0;
  ticks = pos 0;
  min_lots = pos 0;
  role = Role.none;
  cpty = [];
}

-- `valid(required)`.
unfoldable pub has_fields : Bits → RestRequest → Bool
has_fields required r = bits_eq (and r.fields required) required

-- `valid(required, optional)`.
unfoldable pub valid : Bits → Bits → RestRequest → Bool
valid required optional r =
    bits_eq (and r.fields required) required
    && not (nonzero (and r.fields (complement (or required optional))))
