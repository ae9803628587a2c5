-- ===== src/Audit/Chain.antt =====
-- The invariant of the audit table: sequence numbers from 1 without a gap, each row with the hash of
-- the one before it, and each hash made of the row's own content.
use counterparty_sharedos.Prelude.{
  ℕ, ◌+◌, ◌≤◌, ◌≡◌, refl, sym, ap, ◌∙◌, true, some, List, [], ◌∷◌, ◌++◌, String, str_eq_refl, arith,
  All, All-map, length, get_last?, ltb,
}
use mathlib.Core.Path.{subst}
use native.Mathlib.Nat.{add-zero}
use counterparty_sharedos.Sorting.{sort_of_IsSorted, IsSorted}
use counterparty_sharedos.Json.{Json, Codec, IsDict, sort_keys, dumps, obj, field, text, int, end}
use counterparty_sharedos.Prelude.Int.{pos}
use counterparty_sharedos.Json.Canonical.{sort_keys-sort_keys}
use counterparty_sharedos.Json.Dict.{sort_keys-IsDict}
use counterparty_sharedos.Audit.{
  AuditRow, zero_hash, record_json, record_hash, by_seq, last_row, next_seq, head_hash, verify_rows,
  verify_audit,
}

-- The row stands at place `n` after the hash `previous`, and holds the payload `payload`.
pub record IsLinked {F : Type 0} (c : Codec F) (previous : String) (n : ℕ) (row : AuditRow c.Text)
    : Type 0 where
  pub payload : Json F
  pub dict : IsDict payload
  pub seq : row.seq ≡ n
  pub link : row.previous_hash ≡ previous
  pub content : row.payload_json ≡ dumps c payload
  pub hash :
      row.hash ≡ record_hash c row.id row.seq row.ts_ns row.event_type payload row.previous_hash

module _ {F : Type 0} where
  -- the dictionary `record` as it is hashed, its keys in order
  abbrev pub sorted_record : String → ℕ → ℕ → String → Json F → String → Json F
  sorted_record id seq ts type payload previous = obj (
      field "event_type" (text type) (
        field "id" (text id) (
          field "payload" payload (
            field "previous_hash" (text previous)
              (field "seq" (int (pos seq)) (field "ts_ns" (int (pos ts)) end))))))

  pub sort_keys-record_json :
      (id : String) (seq ts : ℕ) (type : String) (payload : Json F) (previous : String)
      → sort_keys (record_json id seq ts type payload previous)
        ≡ sorted_record id seq ts type (sort_keys payload) previous
  unfolding record_json sort_keys
  sort_keys-record_json id seq ts type payload previous = refl

module _ {F : Type 0} (c : Codec F) where
  abbrev pub IsChain : String → ℕ → List (AuditRow c.Text) → Type 0
  IsChain previous n [] = Unit
  IsChain previous n (row ∷ rows) = IsLinked c previous n row × IsChain row.hash (n + 1) rows

  -- a payload that was read back hashes as it did before it was written
  pub record_hash-sort_keys :
      (id : String) (seq ts : ℕ) (type : String) (payload : Json F) (previous : String)
      → record_hash c id seq ts type (sort_keys payload) previous
        ≡ record_hash c id seq ts type payload previous
  unfolding record_hash
  record_hash-sort_keys id seq ts type payload previous =
      ap (λ j. c.sha256 (c.write_compact j))
        (sort_keys-record_json id seq ts type (sort_keys payload) previous
          ∙ ap (λ p. sorted_record id seq ts type p previous) (sort_keys-sort_keys payload)
          ∙ sym (sort_keys-record_json id seq ts type payload previous))

  pub loads-dumps :
      (payload : Json F) → IsDict payload → c.loads (dumps c payload) ≡ some (sort_keys payload)
  loads-dumps payload d = c.loads-write (sort_keys payload) (sort_keys-IsDict payload d)

  pub verify_rows-IsChain :
      (previous : String) (n : ℕ) (rows : List (AuditRow c.Text))
      → IsChain previous n rows
      → verify_rows c previous n rows ≡ some true
  unfolding verify_rows
  verify_rows-IsChain previous n [] h = refl
  verify_rows-IsChain previous n (row ∷ rows) h = ground (
    arith,
    loads-dumps h.0.payload h.0.dict,
    h.0.content,
    record_hash-sort_keys row.id row.seq row.ts_ns row.event_type h.0.payload row.previous_hash,
    str_eq_refl row.previous_hash,
    str_eq_refl row.hash,
    verify_rows-IsChain row.hash (n + 1) rows h.1,
  )

  -- the hash after the last row
  abbrev pub end_hash : String → List (AuditRow c.Text) → String
  end_hash previous [] = previous
  end_hash previous (row ∷ rows) = end_hash row.hash rows

  head_hash-get_last? :
      (previous : String) (rows : List (AuditRow c.Text)) (row : AuditRow c.Text)
      → head_hash c (get_last? (row ∷ rows)) ≡ end_hash previous (row ∷ rows)
  head_hash-get_last? previous [] row = refl
  head_hash-get_last? previous (r ∷ rows) row = head_hash-get_last? row.hash rows r

  pub IsChain-snoc :
      (previous : String) (n : ℕ) (rows : List (AuditRow c.Text)) (row : AuditRow c.Text)
      → IsChain previous n rows
      → IsLinked c (end_hash previous rows) (n + length rows) row
      → IsChain previous n (rows ++ row ∷ [])
  IsChain-snoc previous n [] row h l = (rw add-zero at l, tt)
  IsChain-snoc previous n (r ∷ rows) row h l = (
    h.0,
    IsChain-snoc r.hash (n + 1) rows row h.1
        (subst (λ k. IsLinked c (end_hash r.hash rows) k row) (omega arith) l),
  )

  at_least :
      (previous : String) (n : ℕ) (rows : List (AuditRow c.Text))
      → IsChain previous n rows
      → All (λ r. n ≤ r.seq) rows
  at_least previous n [] h = tt
  at_least previous n (r ∷ rows) h = (
    omega (arith, h.0.seq),
    All-map _ (λ q. n ≤ q.seq) (λ q k. omega arith) rows (at_least r.hash (n + 1) rows h.1),
  )

  IsChain-IsSorted :
      (previous : String) (n : ℕ) (rows : List (AuditRow c.Text))
      → IsChain previous n rows
      → IsSorted (λ (a b : AuditRow c.Text). ltb a.seq b.seq) rows
  IsChain-IsSorted previous n [] h = tt
  IsChain-IsSorted previous n (r ∷ rows) h = (
    All-map _ _ (λ q k. ground (arith, h.0.seq)) rows (at_least r.hash (n + 1) rows h.1),
    IsChain-IsSorted r.hash (n + 1) rows h.1,
  )

  -- the rows of a chain are read in the order in which they were inserted
  pub by_seq-IsChain :
      (previous : String) (n : ℕ) (rows : List (AuditRow c.Text))
      → IsChain previous n rows
      → by_seq c rows ≡ rows
  by_seq-IsChain previous n rows h = sort_of_IsSorted _ rows (IsChain-IsSorted previous n rows h)

  next_seq_from :
      (previous : String) (n : ℕ) (row : AuditRow c.Text) (rows : List (AuditRow c.Text))
      → IsChain previous n (row ∷ rows)
      → next_seq c (get_last? (row ∷ rows)) ≡ n + length (row ∷ rows)
  next_seq_from previous n row [] h = omega (arith, h.0.seq)
  next_seq_from previous n row (r ∷ rows) h =
      omega (arith, next_seq_from row.hash (n + 1) r rows h.1)

  -- what `_append_audit_tx` reads from a chain: its length, and the hash of its last row
  pub next_seq-IsChain :
      (rows : List (AuditRow c.Text))
      → IsChain zero_hash 1 rows
      → next_seq c (last_row c rows) ≡ 1 + length rows
  next_seq-IsChain rows h = rw (by_seq-IsChain zero_hash 1 rows h) (next_seq_last rows h)
    where
      next_seq_last :
          (qs : List (AuditRow c.Text))
          → IsChain zero_hash 1 qs
          → next_seq c (get_last? qs) ≡ 1 + length qs
      next_seq_last [] k = refl
      next_seq_last (q ∷ qs) k = next_seq_from zero_hash 1 q qs k

  pub head_hash-IsChain :
      (rows : List (AuditRow c.Text))
      → IsChain zero_hash 1 rows
      → head_hash c (last_row c rows) ≡ end_hash zero_hash rows
  head_hash-IsChain rows h = rw (by_seq-IsChain zero_hash 1 rows h) (head_hash_last rows)
    where
      head_hash_last :
          (qs : List (AuditRow c.Text)) → head_hash c (get_last? qs) ≡ end_hash zero_hash qs
      head_hash_last [] = refl
      head_hash_last (q ∷ qs) = head_hash-get_last? zero_hash qs q

  -- `verify_audit` accepts every chain
  pub verify_audit-IsChain :
      (rows : List (AuditRow c.Text)) → IsChain zero_hash 1 rows → verify_audit c rows ≡ some true
  unfolding verify_audit
  verify_audit-IsChain rows h =
      rw (by_seq-IsChain zero_hash 1 rows h) (verify_rows-IsChain zero_hash 1 rows h)
