-- ===== src/RestRequest/Machine.antt =====
-- src/fir/RestRequest.cpp, `parse`: the machine that Ragel made, which reads one character at a time.
-- The search of a key counts its rounds; `hi` is one entry past the key or range that `_upper` points
-- to, so that it is never negative. `char` is signed.
use swirlyc.Common.{
  ℕ, zero, suc, ◌+◌, ◌-◌, ◌*◌, ◌/◌, ◌%◌, ◌==◌, ltb, Bool, true, false, List, [], ◌∷◌, Option, none,
  some, if◌then◌else◌,
}
use swirlyc.Text.{Str}
use swirlyc.RestRequest.States.{
  json_actions, json_key_offsets, json_single_lengths, json_range_lengths, json_index_offsets,
}
use swirlyc.RestRequest.Transitions.{json_trans_keys, json_trans_targs, json_trans_actions}
use swirlyc.RestRequest.Actions.{Parser, Acted, json_error, json_first_final}
use swirlyc.RestRequest.Act.{and_then, entry, acts}

-- `<` of a signed `char`.
abbrev pub char_ltb : ℕ → ℕ → Bool
char_ltb a b = ltb ((a + 128) % 256) ((b + 128) % 256)

-- The search of a character among single keys; the result is the entry of the key.
unfoldable pub find_single : ℕ → List ℕ → ℕ → ℕ → ℕ → Option ℕ
find_single zero keys c lo hi = none
find_single (suc n) keys c lo hi =
    let mid = lo + (hi - 1 - lo) / 2 in
    let below = find_single n keys c lo mid in
    let above = find_single n keys c (mid + 1) hi in
    if ltb lo hi
    then (if char_ltb c (entry keys mid)
        then below
        else if char_ltb (entry keys mid) c
        then above
        else some mid)
    else none

-- The search among ranges, each of which is two entries.
unfoldable pub find_range : ℕ → List ℕ → ℕ → ℕ → ℕ → Option ℕ
find_range zero keys c lo hi = none
find_range (suc n) keys c lo hi =
    let mid = lo + (hi - 2 - lo) / 2 / 2 * 2 in
    let below = find_range n keys c lo mid in
    let above = find_range n keys c (mid + 2) hi in
    if ltb (lo + 1) hi
    then (if char_ltb c (entry keys mid)
        then below
        else if char_ltb (entry keys (mid + 1)) c
        then above
        else some mid)
    else none

-- The transition from a state on a character.
unfoldable pub transition : ℕ → ℕ → ℕ
unfolding json_key_offsets json_index_offsets json_single_lengths json_range_lengths json_trans_keys
    find_single find_range
transition cs c =
    let keys = entry json_key_offsets cs in
    let trans = entry json_index_offsets cs in
    let singles = entry json_single_lengths cs in
    let ranges = entry json_range_lengths cs in
    elim (find_single singles json_trans_keys c keys (keys + singles)) [
      | some mid ↦ trans + (mid - keys)
      | none ↦
          elim (find_range ranges json_trans_keys c (keys + singles)
            (keys + singles + ranges * 2)) [
              | some mid ↦ trans + singles + (mid - (keys + singles)) / 2
              | none ↦ trans + singles + ranges
            ]
    ]

-- The actions of a transition. `stop` has left the loop with the state of an error.
unfoldable pub take_transition : ℕ → ℕ → Parser → Acted
unfolding json_trans_targs json_trans_actions json_actions acts
take_transition t c p =
    let q = record p { cs = entry json_trans_targs t } in
    let a = entry json_trans_actions t in
    if a == 0 then Acted.go q else acts (entry json_actions a) (a + 1) c q

-- The loop over the characters.
unfoldable pub resume : Str → Parser → Acted
unfolding transition take_transition
resume [] p = Acted.go p
resume (c ∷ s) p = elim (p.cs == 0) [
  | true ↦ Acted.go p
  | false ↦ and_then (take_transition (transition p.cs c) c p) (resume s)
]

-- How `parse` ends: it throws, the object is not complete, or it is.
pub data Parsed : Type 0 where
  threw partial complete : Parser → Parsed
  fault : Parsed

unfoldable pub ending : Acted → Parsed
ending (Acted.go p) =
    if p.cs == json_error
    then Parsed.threw p
    else if ltb p.cs json_first_final
    then Parsed.partial p
    else Parsed.complete p
ending (Acted.stop p) = Parsed.threw p
ending Acted.fault = Parsed.fault

-- `parse`.
unfoldable pub parse : Str → Parser → Parsed
unfolding resume ending
parse s p = ending (resume s p)
