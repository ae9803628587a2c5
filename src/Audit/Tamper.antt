-- ===== src/Audit/Tamper.antt =====
-- What `verify_audit` accepts, and why a rewritten history does not pass it: two accepted tables with
-- one head hold the same events, or two texts with one SHA-256 can be read off them.
use counterparty_sharedos.Prelude.{
  ℕ, ◌+◌, ◌≡◌, ◌≢◌, refl, sym, ap, ◌∙◌, ◌⊎◌, inl, inr, true, ◌&&◌, some, List, [], ◌∷◌, String,
  str_eq, str_eq_iff, arith, ◌==◌, length, get_last?, Bool-cases, Option-cases, and_true, ==_iff,
}
use counterparty_sharedos.Json.{Json, Codec, IsDict, sort_keys, has_key}
use counterparty_sharedos.Json.Dict.{sort_keys-IsDict}
use counterparty_sharedos.Audit.{
  AuditRow, zero_hash, record_hash, by_seq, verify_rows, verify_audit, audit_head, head_of_row,
}
use counterparty_sharedos.Audit.Chain.{sorted_record, sort_keys-record_json, end_hash}

-- one row that the loop of `verify_audit` lets pass
pub record IsChecked {F : Type 0} (c : Codec F) (previous : String) (n : ℕ) (row : AuditRow c.Text)
    : Type 0 where
  pub payload : Json F
  pub content : c.loads row.payload_json ≡ some payload
  pub seq : row.seq ≡ n
  pub link : row.previous_hash ≡ previous
  pub hash :
      record_hash c row.id row.seq row.ts_ns row.event_type payload row.previous_hash ≡ row.hash

-- two texts with one hash
pub record Collision {F : Type 0} (c : Codec F) : Type 0 where
  pub left : c.Text
  pub right : c.Text
  pub differ : left ≢ right
  pub collide : c.sha256 left ≡ c.sha256 right

-- One event in two tables: every column agrees, the payloads up to the order of their keys.
pub record SameEvent {F : Type 0} (c : Codec F) (a b : AuditRow c.Text) : Type 0 where
  pub id : a.id ≡ b.id
  pub seq : a.seq ≡ b.seq
  pub ts_ns : a.ts_ns ≡ b.ts_ns
  pub event_type : a.event_type ≡ b.event_type
  pub previous_hash : a.previous_hash ≡ b.previous_hash
  pub hash : a.hash ≡ b.hash
  pub payload_a : Json F
  pub payload_b : Json F
  pub reads_a : c.loads a.payload_json ≡ some payload_a
  pub reads_b : c.loads b.payload_json ≡ some payload_b
  pub payload : sort_keys payload_a ≡ sort_keys payload_b

some_inj {ℓ} : {A : Type ℓ} {x y : A} → some x ≡ some y → x ≡ y
some_inj e = cc e

module _ {F : Type 0} (c : Codec F) where
  abbrev pub AllChecked : String → ℕ → List (AuditRow c.Text) → Type 0
  AllChecked previous n [] = Unit
  AllChecked previous n (row ∷ rows) = IsChecked c previous n row × AllChecked row.hash (n + 1) rows

  abbrev pub SameEvents : List (AuditRow c.Text) → List (AuditRow c.Text) → Type 0
  SameEvents [] [] = Unit
  SameEvents (a ∷ xs) (b ∷ ys) = SameEvent c a b × SameEvents xs ys
  SameEvents _ _ = ⊥

  verify_rows_sound :
      (previous : String) (n : ℕ) (rows : List (AuditRow c.Text))
      → verify_rows c previous n rows ≡ some true
      → AllChecked previous n rows
  unfolding verify_rows
  verify_rows_sound previous n [] h = tt
  verify_rows_sound previous n (row ∷ rows) h =
      elim (Bool-cases ((row.seq == n) && str_eq row.previous_hash previous)) [
        | inr e ↦ absurd (cc (rw e at h))
        | inl e ↦ elim (Option-cases (c.loads row.payload_json)) [
          | inl e' ↦ absurd (cc (rw (e, e') at h))
          | inr (payload, e') ↦
              elim (Bool-cases (
                str_eq
                  (record_hash c row.id row.seq row.ts_ns row.event_type payload row.previous_hash)
                  row.hash)) [
                    | inr e'' ↦ absurd (cc (rw (e, e', e'') at h))
                    | inl e'' ↦ (
                      record {
                        payload = payload;
                        content = e';
                        seq = (==_iff row.seq n).0 (and_true _ _ e).0;
                        link = (str_eq_iff _ _).0 (and_true _ _ e).1;
                        hash = (str_eq_iff _ _).0 e'';
                      },
                      verify_rows_sound row.hash (n + 1) rows (rw (e, e', e'') at h),
                    )
                  ]
        ]
      ]

  sorted_record-IsDict :
      (id : String) (seq ts : ℕ) (type : String) (payload : Json F) (previous : String)
      → IsDict payload
      → IsDict (sorted_record id seq ts type (sort_keys payload) previous)
  unfolding IsDict has_key
  sorted_record-IsDict id seq ts type payload previous d = (
    refl,
    tt,
    (refl, tt, (refl, sort_keys-IsDict payload d, (refl, tt, (refl, tt, (refl, tt, tt))))),
  )

  -- the text that is hashed for a row
  abbrev material : AuditRow c.Text → Json F → c.Text
  material row payload =
      c.write_compact (
        sorted_record row.id row.seq row.ts_ns row.event_type (sort_keys payload) row.previous_hash)

  sha256-material :
      (row : AuditRow c.Text) (payload : Json F)
      → c.sha256 (material row payload)
        ≡ record_hash c row.id row.seq row.ts_ns row.event_type payload row.previous_hash
  unfolding record_hash
  sha256-material row payload =
      ap (λ j. c.sha256 (c.write_compact j))
        (sym
          (sort_keys-record_json row.id row.seq row.ts_ns row.event_type payload row.previous_hash))

  -- one text was written for one dictionary
  material_inj :
      (a b : AuditRow c.Text) (x y : Json F)
      → IsDict x
      → IsDict y
      → material a x ≡ material b y
      → sorted_record a.id a.seq a.ts_ns a.event_type (sort_keys x) a.previous_hash
        ≡ sorted_record b.id b.seq b.ts_ns b.event_type (sort_keys y) b.previous_hash
  material_inj a b x y dx dy e = some_inj (
      sym (
        c.loads-write_compact _
          (sorted_record-IsDict a.id a.seq a.ts_ns a.event_type x a.previous_hash dx))
      ∙ ap c.loads e
      ∙ c.loads-write_compact _
          (sorted_record-IsDict b.id b.seq b.ts_ns b.event_type y b.previous_hash dy))

  -- Rows that passed and have one hash hold the same event, or their materials collide.
  same_hash :
      (p q : String) (n m : ℕ) (a b : AuditRow c.Text)
      → IsChecked c p n a
      → IsChecked c q m b
      → a.hash ≡ b.hash
      → Collision c ⊎ SameEvent c a b
  same_hash p q n m a b h k e =
      elim (Bool-cases (c.same (material a h.payload) (material b k.payload))) [
        | inr d ↦ inl (record {
          left = material a h.payload;
          right = material b k.payload;
          differ = λ eq. cc (d, (c.same_iff _ _).1 eq);
          collide =
              sha256-material a h.payload
              ∙ h.hash
              ∙ e
              ∙ sym k.hash
              ∙ sym (sha256-material b k.payload);
        })
        | inl s ↦
            let r =
              material_inj a b h.payload k.payload
                (c.loads-IsDict a.payload_json h.payload h.content)
                (c.loads-IsDict b.payload_json k.payload k.content) ((c.same_iff _ _).0 s) in
            inr (record {
              id = cc r;
              seq = cc r;
              ts_ns = cc r;
              event_type = cc r;
              previous_hash = cc r;
              hash = e;
              payload_a = h.payload;
              payload_b = k.payload;
              reads_a = h.content;
              reads_b = k.content;
              payload = cc r;
            })
      ]

  same_chains :
      (p q : String) (n m : ℕ) (xs ys : List (AuditRow c.Text))
      → AllChecked p n xs
      → AllChecked q m ys
      → length xs ≡ length ys
      → end_hash c p xs ≡ end_hash c q ys
      → Collision c ⊎ ((p ≡ q) × SameEvents xs ys)
  same_chains p q n m [] [] h k l e = inr (e, tt)
  same_chains p q n m [] (y ∷ ys) h k l e = absurd (omega arith)
  same_chains p q n m (x ∷ xs) [] h k l e = absurd (omega arith)
  same_chains p q n m (x ∷ xs) (y ∷ ys) h k l e =
      elim (same_chains x.hash y.hash (n + 1) (m + 1) xs ys h.1 k.1 (omega arith) e) [
        | inl collision ↦ inl collision
        | inr (hashes, rest) ↦ elim (same_hash p q n m x y h.0 k.0 hashes) [
          | inl collision ↦ inl collision
          | inr here ↦ inr (sym h.0.link ∙ here.previous_hash ∙ k.0.link, (here, rest))
        ]
      ]

  head_of :
      (n : ℕ) (p : String) (rows : List (AuditRow c.Text)) (row : AuditRow c.Text)
      → AllChecked p n (row ∷ rows)
      → (r : AuditRow c.Text) × (get_last? (row ∷ rows) ≡ some r)
        × (r.seq ≡ n + length rows)
        × (r.hash ≡ end_hash c p (row ∷ rows))
  head_of n p [] row h = (row, refl, omega (arith, h.0.seq), refl)
  head_of n p (r ∷ rows) row h =
      let (last, is_last, at, is_end) = head_of (n + 1) row.hash rows r h.1 in
      (last, is_last, omega arith, is_end)

  -- the head of a table that passes is its length and the hash of its last row
  head-AllChecked :
      (rows : List (AuditRow c.Text))
      → AllChecked zero_hash 1 (by_seq c rows)
      → audit_head c rows ≡ (length (by_seq c rows), end_hash c zero_hash (by_seq c rows))
  unfolding audit_head
  head-AllChecked rows h = go (by_seq c rows) h
    where
      go :
          (qs : List (AuditRow c.Text))
          → AllChecked zero_hash 1 qs
          → head_of_row c (get_last? qs) ≡ (length qs, end_hash c zero_hash qs)
      go [] k = refl
      go (q ∷ qs) k =
          let (last, is_last, at, is_end) = head_of 1 zero_hash qs q k in
          ground (arith, is_last, at, is_end)

  -- Take any two audit tables that `verify_audit` accepts and that have the same `audit_head`. Then
  -- they hold the same events in the same order, every column equal and the payloads equal up to
  -- the order of keys, or two different texts with the same SHA-256 exist.
  pub verify_audit_tamper_evident :
      (xs ys : List (AuditRow c.Text))
      → verify_audit c xs ≡ some true
      → verify_audit c ys ≡ some true
      → audit_head c xs ≡ audit_head c ys
      → Collision c ⊎ SameEvents (by_seq c xs) (by_seq c ys)
  unfolding verify_audit
  verify_audit_tamper_evident xs ys h k e =
      let checked_x = verify_rows_sound zero_hash 1 (by_seq c xs) h in
      let checked_y = verify_rows_sound zero_hash 1 (by_seq c ys) k in
      let heads = sym (head-AllChecked xs checked_x) ∙ e ∙ head-AllChecked ys checked_y in
      elim (same_chains zero_hash zero_hash 1 1 (by_seq c xs) (by_seq c ys) checked_x checked_y
        (ap (λ t. t.0) heads) (ap (λ t. t.1) heads)) [
          | inl collision ↦ inl collision
          | inr (_, same) ↦ inr same
        ]
