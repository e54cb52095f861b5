-- ===== src/Refname/Addition.antt =====
-- modification_has_ref_with_prefix, modification_validate and validate_ref_record_addition of c/refname.c: the
-- names that a transaction adds against each other and against those of the table.
use mathlib.Core.List.{reverse}
use reftable.Base.{
  ℕ, zero, suc, ◌+◌, List, [], ◌∷◌, ◌++◌, Bool, true, false, ltb, ◌==◌, if◌then◌else◌, Option, none,
  some, Result, ok, err, fault, out_of_fuel, name_conflict, ◌>>=◌, load, length,
}
use reftable.Basics.Names.{Name}
use reftable.Basics.BinSearch.{binsearch}
use reftable.Record.Types.{Record, RefRecord, ref}
use reftable.Record.Any.{record_is_deletion}
use reftable.Generic.{
  Table, wanted_ref, reftable_table_seek_ref, reftable_iterator_next_ref, reftable_table_read_ref,
}
use reftable.Refname.Validate.{slash, validate_refname}
use reftable.Refname.Names.{find_name, search_names, modification_has_ref}

-- `!strncmp(prefix, name, strlen(prefix))`
unfoldable pub has_prefix : Name → Name → Bool
has_prefix [] name = true
has_prefix (x ∷ prefix) [] = false
has_prefix (x ∷ prefix) (y ∷ name) = if x == y then has_prefix prefix name else false

-- `if (add_len > 0) { … idx < add_len && !strncmp(prefix, add[idx], strlen(prefix)) }`
unfoldable pub search_prefix : List Name → Name → Result Bool
search_prefix names prefix =
    let found : Result Bool = do
      (idx, s) ← binsearch (find_name names prefix) (length names) tt
      if ltb idx (length names)
          then (do name ← load names idx; ok (has_prefix prefix name))
          else ok false
    in if ltb 0 (length names) then found else ok false

-- strbuf_trim_component works from the end of the name, so this takes the bytes from the last one on.
unfoldable pub trim_reversed : List ℕ → List ℕ
trim_reversed [] = []
trim_reversed (c ∷ cs) = let rest = trim_reversed cs in if c == slash then cs else rest

unfoldable pub strbuf_trim_component : List ℕ → List ℕ
strbuf_trim_component sl = reverse (trim_reversed (reverse sl))

module _ {S : Type 0} (next : S → Record → Result (Option (Record × S))) where
  -- The `while (1)`: a ref that the transaction deletes is passed over. `true` is the 0 of C.
  unfoldable pub prefix_loop : ℕ → List Name → Name → S → RefRecord → Result Bool
  prefix_loop zero del prefix it r = fault out_of_fuel
  prefix_loop (suc rounds) del prefix it r = do
    step ← reftable_iterator_next_ref next it r
    elim step [
      | none ↦ ok false
      | some (read, it') ↦ (do
        gone ← search_names del read.refname
        elim gone [
          | true ↦ prefix_loop rounds del prefix it' read
          | false ↦ ok (has_prefix prefix read.refname)
        ])
    ]

  module _ (tab : Table S) (add del : List Name) where
    -- The iterator gives the refs in strict order, so each deleted name is passed over once at most.
    unfoldable pub modification_has_ref_with_prefix : Name → Result Bool
    modification_has_ref_with_prefix prefix = do
      in_add ← search_prefix add prefix
      if in_add then ok true else (do
        it ← reftable_table_seek_ref tab prefix
        elim it [
          | none ↦ ok false
          | some s ↦ prefix_loop (length del + 1) del prefix s (wanted_ref [])
        ])

    -- The record of reftable_table_read_ref is not used.
    unfoldable pub table_has_ref : Name → Result Bool
    table_has_ref name = do
      found ← reftable_table_read_ref next tab name (wanted_ref [])
      elim found [ none ↦ ok false | some r ↦ ok true ]

    -- The `while (slashed.len)`; each round takes a byte at least.
    unfoldable pub parents_loop : ℕ → Name → Result (Unit {0})
    parents_loop fuel [] = ok tt
    parents_loop zero (c ∷ cs) = fault out_of_fuel
    parents_loop (suc fuel) (c ∷ cs) = do
      let slashed = strbuf_trim_component (c ∷ cs)
      found ← modification_has_ref table_has_ref add del slashed
      elim found [ true ↦ err name_conflict | false ↦ parents_loop fuel slashed ]

    -- The body of the `for`.
    unfoldable pub validate_added : Name → Result (Unit {0})
    unfolding parents_loop
    validate_added name = do
      valid ← validate_refname name
      below ← modification_has_ref_with_prefix (name ++ (slash ∷ []))
      elim below [ true ↦ err name_conflict | false ↦ parents_loop (length name) name ]

    -- The `for` over the added names.
    unfoldable pub validate_names : List Name → Result (Unit {0})
    validate_names [] = ok tt
    validate_names (name ∷ names) = do valid ← validate_added name; validate_names names

    unfoldable pub modification_validate : Result (Unit {0})
    unfolding validate_names
    modification_validate = validate_names add

  -- The `for`: the names of the deletions, and those of the other refs.
  unfoldable pub split_records : List RefRecord → List Name × List Name
  split_records [] = ([], [])
  split_records (r ∷ recs) =
      let (add, del) = split_records recs in
      if record_is_deletion (ref r) then (add, r.refname ∷ del) else (r.refname ∷ add, del)

  unfoldable pub validate_ref_record_addition : Table S → List RefRecord → Result (Unit {0})
  validate_ref_record_addition tab recs =
      let (add, del) = split_records recs in modification_validate tab add del
