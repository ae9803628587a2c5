-- ===== src/Audit/Append.antt =====
-- What one `_append_audit_tx` does to a chain, and what the readers return afterwards.
use counterparty_sharedos.Prelude.{
  ◌+◌, ◌≡◌, refl, sym, ap, ◌∙◌, true, false, Option, none, some, List, [], ◌∷◌, ◌++◌, String,
  str_eq, str_eq_refl, str_eq_iff, arith, length, any, find, get_last?-append,
}
use counterparty_sharedos.Json.{Json, Codec, IsDict, sort_keys}
use counterparty_sharedos.Audit.{
  AuditRow, Event, Stamp, zero_hash, last_row, row_of, row_conflicts, new_event, append_audit_tx,
  verify_audit, audit_head, get_audit_event, head_of_row, head_hash,
}
use counterparty_sharedos.Audit.Chain.{
  IsLinked, IsChain, IsChain-snoc, end_hash, next_seq-IsChain, head_hash-IsChain, by_seq-IsChain,
  loads-dumps, verify_audit-IsChain,
}

module _ {F : Type 0} (c : Codec F) where
  -- the parts of a successful append
  pub append_audit_tx_parts :
      (stamp : Stamp) (type : String) (payload : Json F) (rows : List (AuditRow c.Text))
      {event : Event F} {rows' : List (AuditRow c.Text)}
      → append_audit_tx c stamp type payload rows ≡ some (event, rows')
      → (event ≡ new_event c stamp type payload rows)
        × (rows' ≡ rows ++ row_of c event ∷ [])
        × (any (row_conflicts c (row_of c event)) rows ≡ false)
  unfolding append_audit_tx
  append_audit_tx_parts stamp type payload rows h = ground arith

  new_event-IsLinked :
      (stamp : Stamp) (type : String) (payload : Json F) (rows : List (AuditRow c.Text))
      → IsDict payload
      → IsChain c zero_hash 1 rows
      → IsLinked c
          (end_hash c zero_hash rows)
          (1 + length rows)
          (row_of c (new_event c stamp type payload rows))
  unfolding new_event
  new_event-IsLinked stamp type payload rows d h = record {
    payload = payload;
    dict = d;
    seq = next_seq-IsChain c rows h;
    link = head_hash-IsChain c rows h;
    content = refl;
    hash = refl;
  }

  pub append_audit_tx-IsChain :
      (stamp : Stamp) (type : String) (payload : Json F) (rows : List (AuditRow c.Text))
      {event : Event F} {rows' : List (AuditRow c.Text)}
      → IsDict payload
      → IsChain c zero_hash 1 rows
      → append_audit_tx c stamp type payload rows ≡ some (event, rows')
      → IsChain c zero_hash 1 rows'
  append_audit_tx-IsChain stamp type payload rows d h e =
      let (is_new, grown, _) = append_audit_tx_parts stamp type payload rows e in
      rw grown (
        rw is_new (
          IsChain-snoc c zero_hash 1 rows (row_of c (new_event c stamp type payload rows)) h
            (new_event-IsLinked stamp type payload rows d h)))

  find_appended :
      (event : Event F) (rows : List (AuditRow c.Text))
      → any (row_conflicts c (row_of c event)) rows ≡ false
      → find (λ row. str_eq row.hash event.hash) (rows ++ row_of c event ∷ [])
        ≡ some (row_of c event)
  find_appended event [] h = rw (str_eq_refl event.hash)
  find_appended event (r ∷ rows) h =
      ground (
        arith,
        str_eq_iff r.hash event.hash,
        str_eq_iff event.hash r.hash,
        find_appended event rows,
      )

  head_of_row-head_hash : (o : Option (AuditRow c.Text)) → (head_of_row c o).1 ≡ head_hash c o
  head_of_row-head_hash none = refl
  head_of_row-head_hash (some row) = refl

  audit_head-append :
      (event : Event F) (rows : List (AuditRow c.Text))
      → IsChain c zero_hash 1 (rows ++ row_of c event ∷ [])
      → audit_head c (rows ++ row_of c event ∷ []) ≡ (event.seq, event.hash)
  unfolding audit_head
  audit_head-append event rows h =
      rw (by_seq-IsChain c zero_hash 1 (rows ++ row_of c event ∷ []) h)
        (rw (get_last?-append rows (row_of c event)))

  get_audit_event-append :
      (event : Event F) (rows : List (AuditRow c.Text))
      → IsDict event.payload
      → any (row_conflicts c (row_of c event)) rows ≡ false
      → get_audit_event c event.hash (rows ++ row_of c event ∷ [])
        ≡ some (some (record event { payload = sort_keys event.payload }))
  unfolding get_audit_event
  get_audit_event-append event rows d h =
      rw (find_appended event rows h, get_audit_event) (rw (loads-dumps c event.payload d))

  new_event-previous_hash :
      (stamp : Stamp) (type : String) (payload : Json F) (rows : List (AuditRow c.Text))
      → (new_event c stamp type payload rows).previous_hash ≡ (audit_head c rows).1
  unfolding new_event audit_head
  new_event-previous_hash stamp type payload rows = sym (head_of_row-head_hash (last_row c rows))

  new_event-payload :
      (stamp : Stamp) (type : String) (payload : Json F) (rows : List (AuditRow c.Text))
      → (new_event c stamp type payload rows).payload ≡ payload
  unfolding new_event
  new_event-payload stamp type payload rows = refl

  -- A successful append to a chain numbers its event next, links it to the last hash, and leaves a
  -- table that `verify_audit` accepts, whose `audit_head` is the new event, and in which
  -- `get_audit_event` finds the event by its receipt with the payload's keys in order.
  pub append_audit_tx_lem :
      (stamp : Stamp) (type : String) (payload : Json F) (rows : List (AuditRow c.Text))
      (event : Event F) (rows' : List (AuditRow c.Text))
      → IsDict payload
      → IsChain c zero_hash 1 rows
      → append_audit_tx c stamp type payload rows ≡ some (event, rows')
      → (event.seq ≡ length rows + 1)
        × (event.previous_hash ≡ (audit_head c rows).1)
        × (verify_audit c rows' ≡ some true)
        × (audit_head c rows' ≡ (event.seq, event.hash))
        × (get_audit_event c event.hash rows'
            ≡ some (some (record event { payload = sort_keys payload })))
  append_audit_tx_lem stamp type payload rows event rows' d h e =
      let (is_new, grown, fresh) = append_audit_tx_parts stamp type payload rows e in
      let linked = new_event-IsLinked stamp type payload rows d h in
      let chain = append_audit_tx-IsChain stamp type payload rows d h e in
      let kept : event.payload ≡ payload =
        ap (λ x. x.payload) is_new ∙ new_event-payload stamp type payload rows in
      (
        omega (arith, ap (λ x. x.seq) is_new, linked.seq),
        ap (λ x. x.previous_hash) is_new ∙ new_event-previous_hash stamp type payload rows,
        verify_audit-IsChain c rows' chain,
        rw grown (audit_head-append event rows (rw grown at chain)),
        rw grown (rw (← kept) (get_audit_event-append event rows (rw kept d) fresh)),
      )
