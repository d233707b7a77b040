-- ===== src/Policy/Pipeline/Kinds.antt =====
-- pipeline_identity: the kinds that are declared, and the selected functions with the entry.
use fragma.Prelude.{
  ◌≡◌, refl, ap, ◌∙◌, Bool, true, false, ◌&&◌, List, [], ◌∷◌, ◌++◌, Option, none, some, String,
  str_eq, ok, ok-injective, member, subset, any, Bool-cases, inl, inr, &&-eq-true, arith,
  if◌then◌else◌, if_true, if_false, eq_iff, Option-cases, subst, same_set,
}
use mathlib.Core.Option.{some-injective}
use fragma.Prelude.Json.{Json, Fields, obj, str, find}
use fragma.Policy.Texts.{keys}
use fragma.Policy.Model.{given}
use fragma.Policy.Pipeline.{declared_kind, default_kind, allowed_kinds, kind_of, with_entry}

any-append : (p : String → Bool) (xs ys : List String) → any p xs ≡ true → any p (xs ++ ys) ≡ true
any-append p [] ys h = cc
any-append p (x ∷ xs) ys h = elim (Bool-cases (p x)) [
  | inl e ↦ ground (arith, e)
  | inr e ↦ let later = any-append p xs ys (ground (arith, h, e)) in ground (arith, later)
]

pub subset-with_entry :
    (kernel selected : List String) (entry : String)
    → subset kernel selected ≡ true
    → subset kernel (with_entry entry selected) ≡ true
subset-with_entry [] selected entry h = refl
subset-with_entry (k ∷ ks) selected entry h =
    let (here, later) = &&-eq-true (member k selected) _ h in
    let rest = subset-with_entry ks selected entry later in ground (arith, added, rest, here)
  where
    added : member k selected ≡ true → member k (with_entry entry selected) ≡ true
    added m = elim (Bool-cases (member entry selected)) [
      | inl e ↦ ap (member k) (if_true (member entry selected) selected _ e) ∙ m
      | inr e ↦
          ap (member k) (if_false (member entry selected) selected _ e) ∙ any-append _ selected _ m
    ]

pub member-with_entry :
    (selected : List String) (entry : String) → member entry (with_entry entry selected) ≡ true
member-with_entry selected entry = elim (Bool-cases (member entry selected)) [
  | inl e ↦ ap (member entry) (if_true (member entry selected) selected _ e) ∙ e
  | inr e ↦ ap (member entry) (if_false (member entry selected) selected _ e) ∙ last selected
]
  where
    here : str_eq entry entry ≡ true
    here = (eq_iff entry entry).1 refl

    last : (xs : List String) → member entry (xs ++ (entry ∷ [])) ≡ true
    last [] = ground (arith, here)
    last (x ∷ xs) = let later = last xs in ground (arith, later)

default_kind-allowed : (wp : Bool) → member (default_kind wp) (allowed_kinds wp) ≡ true
default_kind-allowed true = refl
default_kind-allowed false = refl

kind_of-allowed :
    (wp : Bool) (declaration : Json) {kind : String}
    → kind_of wp declaration ≡ some kind
    → member kind (allowed_kinds wp) ≡ true
kind_of-allowed wp (obj fs) {kind} h = by (find "kind" fs) h
  where
    tested :
        (k : String) (x : Bool)
        → (x ≡ true → member k (allowed_kinds wp) ≡ true)
        → (if x then some k else none) ≡ some kind
        → member kind (allowed_kinds wp) ≡ true
    tested k true f e =
        let same : k ≡ kind = some-injective _ _ e in
        subst (λ w. member w (allowed_kinds wp) ≡ true) same (f refl)
    tested k false f e = cc

    by :
        (o : Option Json)
        → elim o [
          | some (str k) ↦
              if same_set (keys fs) ("kind" ∷ []) && member k (allowed_kinds wp)
              then some k
              else none
          | _ ↦ none
        ]
          ≡ some kind
        → member kind (allowed_kinds wp) ≡ true
    by (some (str k)) e =
        tested k (same_set (keys fs) ("kind" ∷ []) && member k (allowed_kinds wp))
          (λ b. (&&-eq-true (same_set (keys fs) ("kind" ∷ [])) _ b).1) e
    by (some _) e = cc
    by none e = cc
kind_of-allowed wp _ h = cc

pub declared_kind-allowed :
    (wp : Bool) (fs : Fields) {kind : String}
    → declared_kind wp fs ≡ ok kind
    → member kind (allowed_kinds wp) ≡ true
unfolding declared_kind
declared_kind-allowed wp fs {kind} h = elim (Option-cases (find "analysis_pipeline" fs)) [
  | inl e ↦
      let same : default_kind wp ≡ kind = ground arith in
      subst (λ k. member k (allowed_kinds wp) ≡ true) same (default_kind-allowed wp)
  | inr (declaration, e) ↦
      let known : given "unsupported analysis pipeline" (kind_of wp declaration) ≡ ok kind =
        ground arith in
      taken declaration (kind_of wp declaration) refl known
]
  where
    taken :
        (declaration : Json) (o : Option String)
        → kind_of wp declaration ≡ o
        → given "unsupported analysis pipeline" o ≡ ok kind
        → member kind (allowed_kinds wp) ≡ true
    taken declaration none e g = cc
    taken declaration (some k) e g = kind_of-allowed wp declaration (e ∙ ap some (ok-injective g))
