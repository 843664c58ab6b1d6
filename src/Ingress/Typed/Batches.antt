-- ===== src/Ingress/Typed/Batches.antt =====
-- The batches that ingest of src/backend/transport/TypedIngressRuntime.cpp makes of the records.
use vsm_field_workstation.Prelude.{
  ◌≤◌, ◌<◌, ◌≡◌, refl, sym, ap, ◌∙◌, Bool, false, not, ◌&&◌, ◌||◌, Bool-cases, inl, inr, List, [],
  ◌∷◌, ◌++◌, if◌then◌else◌, arith, leb, length, length-append, append_assoc, append-nil, All,
  All-append,
}
use vsm_field_workstation.Prelude.Int.{ℤ}
use vsm_field_workstation.Foreign.{Qt}
use vsm_field_workstation.HostTx.{is_empty}
use vsm_field_workstation.Typed.{TypedRecord, is_type}
use vsm_field_workstation.Typed.RecordType
use vsm_field_workstation.Ingress.Storage.{StorageOps}
use vsm_field_workstation.Ingress.Typed.{
  Ingesting, flush_batch, note_capability, store_record, push_record, take_in, with_parser,
}
use vsm_field_workstation.Typed.Parser.{Parser}

abbrev pub flat {ℓ} : {A : Type ℓ} → List (List A) → List A
flat [] = []
flat (xs ∷ xss) = xs ++ flat xss

-- Every batch but the last has 512 records, and the last has 1 to 512.
abbrev pub IsChunked : List (List TypedRecord) → Type 0
IsChunked [] = Unit
IsChunked (b ∷ []) = (0 < length b) × (length b ≤ 512)
IsChunked (b ∷ c ∷ rest) = (length b ≡ 512) × IsChunked (c ∷ rest)

abbrev pub IsFull : List TypedRecord → Type 0
IsFull b = length b ≡ 512

pub flat-append {ℓ} :
    {A : Type ℓ} (xss : List (List A)) (b : List A) → flat (xss ++ (b ∷ [])) ≡ flat xss ++ b
flat-append [] b = append-nil b
flat-append (xs ∷ xss) b =
    ap (λ ys. xs ++ ys) (flat-append xss b) ∙ sym (append_assoc xs (flat xss) b)

pub full-IsChunked : (bs : List (List TypedRecord)) → All IsFull bs → IsChunked bs
full-IsChunked [] h = tt
full-IsChunked (b ∷ []) h = (omega (arith, h.0), omega (arith, h.0))
full-IsChunked (b ∷ c ∷ bs) h = (h.0, full-IsChunked (c ∷ bs) h.1)

pub last-IsChunked :
    (bs : List (List TypedRecord)) (b : List TypedRecord)
    → All IsFull bs
    → 0 < length b
    → length b ≤ 512
    → IsChunked (bs ++ (b ∷ []))
last-IsChunked [] b h low high = (low, high)
last-IsChunked (x ∷ []) b h low high = (h.0, (low, high))
last-IsChunked (x ∷ y ∷ bs) b h low high = (h.0, last-IsChunked (y ∷ bs) b h.1 low high)

abbrev pub has_capability : List TypedRecord → Bool
has_capability [] = false
has_capability (r ∷ rs) = is_type r RecordType.capability || has_capability rs

pub has_capability-append :
    (xs ys : List TypedRecord)
    → has_capability (xs ++ ys) ≡ (has_capability xs || has_capability ys)
has_capability-append [] ys = refl
has_capability-append (x ∷ xs) ys = ground (arith, has_capability-append xs ys)

module _ {S J : Type 0} (ops : StorageOps S J) (qt : Qt) where
  -- What the storage is asked: each record in turn, while it is active.
  abbrev pub stored : List TypedRecord → S → S
  stored [] s = s
  stored (r ∷ rs) s = stored rs (if ops.is_active s then (ops.append_typed_record r s).1 else s)

  -- The records of the batches and of the batch that is being filled.
  abbrev pub records : Ingesting ops qt → List TypedRecord
  records g = flat g.result.record_batches ++ g.batch

  pub record IsFilling (g : Ingesting ops qt) : Type 0 where
    pub full : All IsFull g.result.record_batches
    pub open_ : length g.batch < 512

  -- From g to h the records rs were taken in.
  pub record TakesIn (rs : List TypedRecord) (g h : Ingesting ops qt) : Type 0 where
    pub batched : records h ≡ records g ++ rs
    pub filling : IsFilling g → IsFilling h
    pub seen :
        h.runtime.capability_seen_since_open
        ≡ (g.runtime.capability_seen_since_open || has_capability rs)
    pub first : h.result.capability_first_seen ≡ (
        g.result.capability_first_seen
        || (not g.runtime.capability_seen_since_open && has_capability rs))
    pub storage : h.runtime.storage ≡ stored rs g.runtime.storage

  is_empty-last : (xs : List TypedRecord) (x : TypedRecord) → is_empty (xs ++ (x ∷ [])) ≡ false
  is_empty-last [] x = refl
  is_empty-last (y ∷ xs) x = refl

  push_record-records :
      (r : TypedRecord) (g : Ingesting ops qt)
      → records (push_record ops qt r g) ≡ records g ++ (r ∷ [])
  unfolding push_record flush_batch
  push_record-records r g =
      let bs = g.result.record_batches in
      let joined = append_assoc (flat bs) g.batch (r ∷ []) in
      elim (Bool-cases (leb 512 (length (g.batch ++ (r ∷ []))))) [
        | inl e ↦
            rw (e, is_empty-last g.batch r)
              (append-nil (flat (bs ++ ((g.batch ++ (r ∷ [])) ∷ [])))
                ∙ flat-append bs (g.batch ++ (r ∷ []))
                ∙ sym joined)
        | inr e ↦ rw e (sym joined)
      ]

  push_record-IsFilling :
      (r : TypedRecord) (g : Ingesting ops qt) → IsFilling g → IsFilling (push_record ops qt r g)
  unfolding push_record flush_batch
  push_record-IsFilling r g v =
      let size = length-append g.batch (r ∷ []) in
      elim (Bool-cases (leb 512 (length (g.batch ++ (r ∷ []))))) [
        | inl e ↦
            rw (e, is_empty-last g.batch r)
              record {
                full =
                    All-append IsFull g.result.record_batches ((g.batch ++ (r ∷ [])) ∷ []) v.full
                      (ground (arith, size, v.open_, e), tt);
                open_ = omega arith;
              }
        | inr e ↦ rw e record { full = v.full; open_ = ground arith }
      ]

  -- What push_record leaves alone.
  push_record-runtime :
      (r : TypedRecord) (g : Ingesting ops qt) → (push_record ops qt r g).runtime ≡ g.runtime
  unfolding push_record flush_batch
  push_record-runtime r g = elim (Bool-cases (leb 512 (length (g.batch ++ (r ∷ []))))) [
    | inl e ↦ rw (e, is_empty-last g.batch r) refl
    | inr e ↦ rw e refl
  ]

  push_record-first :
      (r : TypedRecord) (g : Ingesting ops qt)
      → (push_record ops qt r g).result.capability_first_seen ≡ g.result.capability_first_seen
  unfolding push_record flush_batch
  push_record-first r g = elim (Bool-cases (leb 512 (length (g.batch ++ (r ∷ []))))) [
    | inl e ↦ rw (e, is_empty-last g.batch r) refl
    | inr e ↦ rw e refl
  ]

  note_capability-TakesIn :
      (h : ℤ) (r : TypedRecord) (g : Ingesting ops qt)
      → ((note_capability ops qt h r g).runtime.capability_seen_since_open
          ≡ (g.runtime.capability_seen_since_open || has_capability (r ∷ [])))
        × (((note_capability ops qt h r g).result.capability_first_seen ≡ (
              g.result.capability_first_seen
              || (not g.runtime.capability_seen_since_open && has_capability (r ∷ []))))
            × (((note_capability ops qt h r g).result.record_batches ≡ g.result.record_batches)
                × (((note_capability ops qt h r g).batch ≡ g.batch)
                    × (((note_capability ops qt h r g).runtime.storage ≡ g.runtime.storage)
                        × ((note_capability ops qt h r g).runtime.parser ≡ g.runtime.parser)))))
  unfolding note_capability
  note_capability-TakesIn h r g =
      (ground arith, (ground arith, (ground arith, (ground arith, (ground arith, ground arith)))))

  store_record-TakesIn :
      (r : TypedRecord) (g : Ingesting ops qt)
      → ((store_record ops qt r g).runtime.capability_seen_since_open
          ≡ g.runtime.capability_seen_since_open)
        × (((store_record ops qt r g).result.capability_first_seen ≡ g.result.capability_first_seen)
            × (((store_record ops qt r g).result.record_batches ≡ g.result.record_batches)
                × (((store_record ops qt r g).batch ≡ g.batch)
                    × (((store_record ops qt r g).runtime.storage
                          ≡ stored (r ∷ []) g.runtime.storage)
                        × ((store_record ops qt r g).runtime.parser ≡ g.runtime.parser)))))
  unfolding store_record
  store_record-TakesIn r g = elim (Bool-cases (ops.is_active g.runtime.storage)) [
    | inl e ↦ rw e (refl, (refl, (refl, (refl, (refl, refl)))))
    | inr e ↦ rw e (refl, (refl, (refl, (refl, (refl, refl)))))
  ]

  pub take_in-TakesIn :
      (h : ℤ) (r : TypedRecord) (g : Ingesting ops qt) → TakesIn (r ∷ []) g (take_in ops qt h r g)
  unfolding take_in
  take_in-TakesIn h r g =
      let n = note_capability ops qt h r g in
      let s = store_record ops qt r n in
      let (nseen, (nfirst, (nbatches, (nbatch, (nstorage, nparser))))) =
        note_capability-TakesIn h r g in
      let (sseen, (sfirst, (sbatches, (sbatch, (sstorage, sparser))))) = store_record-TakesIn r n in
      let runtime = push_record-runtime r s in
      record {
        batched =
            push_record-records r s
            ∙ ap (λ bs. (flat bs ++ s.batch) ++ (r ∷ [])) (sbatches ∙ nbatches)
            ∙ ap (λ b. (flat g.result.record_batches ++ b) ++ (r ∷ [])) (sbatch ∙ nbatch);
        filling = λ v. push_record-IsFilling r s (record {
          full = rw (sbatches ∙ nbatches) v.full;
          open_ = rw (sbatch ∙ nbatch) v.open_;
        });
        seen = ap (λ t. t.capability_seen_since_open) runtime ∙ sseen ∙ nseen;
        first = push_record-first r s ∙ sfirst ∙ nfirst;
        storage = ap (λ t. t.storage) runtime ∙ sstorage ∙ ap (λ x. stored (r ∷ []) x) nstorage;
      }

  pub take_in-parser :
      (h : ℤ) (r : TypedRecord) (g : Ingesting ops qt)
      → (take_in ops qt h r g).runtime.parser ≡ g.runtime.parser
  unfolding take_in
  take_in-parser h r g =
      let s = store_record ops qt r (note_capability ops qt h r g) in
      ap (λ t. t.parser) (push_record-runtime r s)
      ∙ (store_record-TakesIn r (note_capability ops qt h r g)).1.1.1.1.1
      ∙ (note_capability-TakesIn h r g).1.1.1.1.1

  pub with_parser-TakesIn :
      (p : Parser) (g : Ingesting ops qt) → TakesIn [] g (with_parser ops qt p g)
  unfolding with_parser
  with_parser-TakesIn p g = record {
    batched = sym (append-nil (records g));
    filling = λ v. record { full = v.full; open_ = v.open_ };
    seen = ground arith;
    first = ground arith;
    storage = refl;
  }

  stored-append : (xs ys : List TypedRecord) (s : S) → stored (xs ++ ys) s ≡ stored ys (stored xs s)
  stored-append [] ys s = refl
  stored-append (x ∷ xs) ys s = stored-append xs ys _

  -- First xs, then ys.
  pub TakesIn-trans :
      (xs ys : List TypedRecord) (g m h : Ingesting ops qt)
      → TakesIn xs g m
      → TakesIn ys m h
      → TakesIn (xs ++ ys) g h
  TakesIn-trans xs ys g m h a b = record {
    batched = b.batched ∙ ap (λ rs. rs ++ ys) a.batched ∙ append_assoc (records g) xs ys;
    filling = λ v. b.filling (a.filling v);
    seen = ground (arith, a.seen, b.seen, has_capability-append xs ys);
    first = ground (arith, a.seen, a.first, b.first, has_capability-append xs ys);
    storage =
        b.storage ∙ ap (λ s. stored ys s) a.storage ∙ sym (stored-append xs ys g.runtime.storage);
  }
