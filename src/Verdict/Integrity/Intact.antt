-- ===== src/Verdict/Integrity/Intact.antt =====
-- `changed_files` reports nothing exactly if every recorded file has the recorded digest.
use fragma.Prelude.{
  ◌≡◌, refl, sym, ap, ◌∙◌, subst, true, false, List, [], ◌∷◌, Option, none, some, Bool-cases, inl,
  inr, All, ok, ◌>>=◌, ◌>>◌, require, ok-injective, >>=-eq-ok, require-eq-ok, not, text_eq,
  text_eq_sound, text_le, ◌↔◌, keep, map, keep_hit, keep_miss,
}
use fragma.Verdict.Integrity.{
  Text, Observed, InputRecord, record_of, put, put_all, insert, sort, merge_records, same_digest,
  is_unchanged, changed_files,
}

put_hit :
    (o m : InputRecord) (os : List InputRecord)
    → text_eq o.absolute_path m.absolute_path ≡ true
    → put (o ∷ os) m
      ≡ (require (text_eq o.sha256 m.sha256) "conflicting observations of input" >> ok (m ∷ os))
unfolding put
put_hit o m os e = rw e refl

put_miss :
    (o m : InputRecord) (os : List InputRecord)
    → text_eq o.absolute_path m.absolute_path ≡ false
    → put (o ∷ os) m ≡ (put os m >>= λ t. ok (o ∷ t))
unfolding put
put_miss o m os e = rw e refl

-- A merged record that stands for one that was read.
pub record IsRead (P : InputRecord → Type 0) (r : Observed) : Type 0 where
  pub merged : InputRecord
  pub made : record_of r ≡ ok merged
  pub holds : P merged

-- What holds of every merged record holds of each that it was merged from.
module _ (P : InputRecord → Type 0) where
  put-All :
      (table : List InputRecord) (m : InputRecord) {after : List InputRecord}
      → put table m ≡ ok after
      → All P after
      → P m × All P table
  unfolding put
  put-All [] m h a =
      let holds : All P (m ∷ []) = subst (All P) (sym (ok-injective h)) a in (holds.0, tt)
  put-All (o ∷ os) m {after} h a = elim (Bool-cases (text_eq o.absolute_path m.absolute_path)) [
    | inl e ↦
        let (same, made) =
          require-eq-ok (text_eq o.sha256 m.sha256) _ _ (sym (put_hit o m os e) ∙ h) in
        let holds : All P (m ∷ os) = subst (All P) (sym (ok-injective made)) a in
        let path = text_eq_sound o.absolute_path m.absolute_path e in
        let digest = text_eq_sound o.sha256 m.sha256 same in
        let equal : m ≡ o = cc in (holds.0, (subst P equal holds.0, holds.1))
    | inr e ↦
        let (t, p, q) = >>=-eq-ok (put os m) (λ t. ok (o ∷ t)) (sym (put_miss o m os e) ∙ h) in
        let holds : All P (o ∷ t) = subst (All P) (sym (ok-injective q)) a in
        let (pm, rest) = put-All os m p holds.1 in (pm, (holds.0, rest))
  ]

  put_all-All :
      (table : List InputRecord) (rs : List Observed) {after : List InputRecord}
      → put_all table rs ≡ ok after
      → All P after
      → All (IsRead P) rs × All P table
  unfolding put_all
  put_all-All table [] h a = (tt, subst (All P) (sym (ok-injective h)) a)
  put_all-All table (r ∷ rs) h a =
      let (m, made, h1) = >>=-eq-ok (record_of r) _ h in
      let (t, p, h2) = >>=-eq-ok (put table m) _ h1 in
      let (rest, holds) = put_all-All t rs h2 a in
      let (pm, before) = put-All table m p holds in
      ((record { merged = m; made = made; holds = pm }, rest), before)

  insert-All : (m : InputRecord) (os : List InputRecord) → All P (insert m os) ↔ (P m × All P os)
  unfolding insert
  insert-All m [] = ((λ a. (a.0, tt)), (λ a. (a.0, tt)))
  insert-All m (o ∷ os) = elim (Bool-cases (text_le m.absolute_path o.absolute_path)) [
    | inl e ↦ rw e ((λ a. a), (λ a. a))
    | inr e ↦
        let (into, back) = insert-All m os in
        rw e ((λ a. let (x, y) = into a.1 in (x, (a.0, y))), (λ a. (a.1.0, back (a.0, a.1.1))))
  ]

  sort-All : (ms : List InputRecord) → All P (sort ms) ↔ All P ms
  unfolding sort
  sort-All [] = ((λ a. a), (λ a. a))
  sort-All (m ∷ ms) =
      let (into, back) = insert-All m (sort ms) in
      let (f, g) = sort-All ms in ((λ a. let (x, y) = into a in (x, f y)), (λ a. back (a.0, g a.1)))

same_digest-same :
    (a : Option Text) (d e : Text)
    → same_digest a d ≡ true
    → same_digest a e ≡ true
    → text_eq d e ≡ true
same_digest-same none d e x y = cc
same_digest-same (some a) d e x y = subst (λ t. text_eq t e ≡ true) (text_eq_sound a d x) y

module _ (current : Text → Option Text) where
  abbrev Unchanged : InputRecord → Type 0
  Unchanged m = is_unchanged current m ≡ true

  -- The record is well formed, and its file has its digest.
  abbrev pub IsIntact : Observed → Type 0
  IsIntact r = IsRead Unchanged r

  put-Unchanged :
      (table : List InputRecord) (m : InputRecord)
      → All Unchanged table
      → Unchanged m
      → (after : List InputRecord) × (put table m ≡ ok after) × All Unchanged after
  unfolding put
  put-Unchanged [] m a u = (m ∷ [], refl, (u, tt))
  put-Unchanged (o ∷ os) m a u = elim (Bool-cases (text_eq o.absolute_path m.absolute_path)) [
    | inl e ↦
        let same : text_eq o.sha256 m.sha256 ≡ true =
          same_digest-same (current m.absolute_path) o.sha256 m.sha256
            (subst (λ path. same_digest (current path) o.sha256 ≡ true) (text_eq_sound _ _ e) a.0)
            u in
        (m ∷ os, put_hit o m os e ∙ (rw same refl), (u, a.1))
    | inr e ↦
        let (t, p, holds) = put-Unchanged os m a.1 u in
        (o ∷ t, put_miss o m os e ∙ (rw p refl), (a.0, holds))
  ]

  put_all-Unchanged :
      (table : List InputRecord) (rs : List Observed)
      → All Unchanged table
      → All IsIntact rs
      → (after : List InputRecord) × (put_all table rs ≡ ok after) × All Unchanged after
  unfolding put_all
  put_all-Unchanged table [] a i = (table, refl, a)
  put_all-Unchanged table (r ∷ rs) a i =
      let (t, p, b) = put-Unchanged table i.0.merged a i.0.holds in
      let (after, q, c) = put_all-Unchanged t rs b i.1 in
      let step : put_all table (r ∷ rs) ≡ put_all t rs = rw (i.0.made, p) refl in
      (after, step ∙ q, c)

  keep_nil :
      (ms : List InputRecord)
      → (keep (λ m. not (is_unchanged current m)) ms ≡ []) ↔ All Unchanged ms
  keep_nil [] = ((λ h. tt), (λ a. refl))
  keep_nil (m ∷ ms) = elim (Bool-cases (is_unchanged current m)) [
    | inl e ↦
        let same : keep (λ m. not (is_unchanged current m)) (m ∷ ms)
            ≡ keep (λ m. not (is_unchanged current m)) ms =
          keep_miss _ m ms (rw e refl) in
        let (f, g) = keep_nil ms in ((λ h. (e, f (sym same ∙ h))), (λ a. same ∙ g a.1))
    | inr e ↦
        let same : keep (λ m. not (is_unchanged current m)) (m ∷ ms)
            ≡ m ∷ keep (λ m. not (is_unchanged current m)) ms =
          keep_hit _ m ms (rw e refl) in
        ((λ h. cc), (λ a. cc))
  ]

  map_nil {ℓ} :
      {B : Type ℓ} (f : InputRecord → B) (ms : List InputRecord) → (map f ms ≡ []) ↔ (ms ≡ [])
  map_nil f [] = ((λ h. refl), (λ h. refl))
  map_nil f (m ∷ ms) = ((λ h. cc), (λ h. cc))

  -- Nothing is reported exactly if every record is well formed and its file is there with the
  -- recorded digest.
  pub changed_files_iff :
      (records : List Observed) → (changed_files current records ≡ ok []) ↔ All IsIntact records
  unfolding changed_files merge_records
  changed_files_iff records = (read, found)
    where
      read : changed_files current records ≡ ok [] → All IsIntact records
      read h =
          let (merged, p, q) = >>=-eq-ok (merge_records records) _ h in
          let (table, p1, p2) = >>=-eq-ok (put_all [] records) _ p in
          let none_changed = (map_nil _ _).0 (ok-injective q) in
          let all_merged = (keep_nil merged).0 none_changed in
          let sorted = subst (All Unchanged) (sym (ok-injective p2)) all_merged in
          (put_all-All Unchanged [] records p1 ((sort-All Unchanged table).0 sorted)).0

      found : All IsIntact records → changed_files current records ≡ ok []
      found i =
          let (table, p, a) = put_all-Unchanged [] records tt i in
          let none_changed = (keep_nil (sort table)).1 ((sort-All Unchanged table).1 a) in
          rw p (ap ok ((map_nil _ _).1 none_changed))
