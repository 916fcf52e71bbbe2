-- ===== src/Select/First.antt =====
-- The family's order decides: the first flasher of its list that can write the device.
use mcu_updater.Base.{
  ◌≡◌, ◌≢◌, ◌⊎◌, refl, sym, ◌∙◌, ap, true, false, Option, none, some, List, [], ◌∷◌, ◌++◌, String,
  All, inl, inr, Option-cases, Bool-cases, str_eq, str_eq_iff,
}
use mcu_updater.Base.Result.{Result, ok, err}
use mcu_updater.Select.Defs.{
  Artifact, Staged, Candidate, of_kind, first_kind, first_of, offer, resolve,
}

-- No artifact is of the kind.
abbrev pub IsMissing : List Artifact → String → Type 0
IsMissing artifacts kind = All (λ a. a.kind ≢ kind) artifacts

-- The artifact is the first of its kind.
abbrev pub IsFirst : List Artifact → Artifact → Type 0
IsFirst artifacts artifact =
    (earlier : List Artifact) × (later : List Artifact) × (artifacts
      ≡ earlier ++ (artifact ∷ later))
    × IsMissing earlier artifact.kind

-- It is the first of its kind, and the kinds ahead of that one have none.
abbrev pub IsFirstOf : List Artifact → List String → Artifact → Type 0
IsFirstOf artifacts kinds artifact =
    (better : List String) × (worse : List String) × (kinds ≡ better ++ (artifact.kind ∷ worse))
    × All (IsMissing artifacts) better
    × IsFirst artifacts artifact

str_eq-ne : (s t : String) → str_eq s t ≡ false → s ≢ t
str_eq-ne s t h e = let k = (str_eq_iff s t).1 e in cc (h, k)

of_kind-none :
    (kind : String) (artifacts : List Artifact)
    → of_kind kind artifacts ≡ none
    → IsMissing artifacts kind
unfolding of_kind
of_kind-none kind [] h = tt
of_kind-none kind (a ∷ artifacts) h = elim (Bool-cases (str_eq a.kind kind)) [
  | inl e ↦ absurd (cc (rw e at h))
  | inr e ↦ (str_eq-ne a.kind kind e, of_kind-none kind artifacts (rw e at h))
]

of_kind-some :
    (kind : String) (artifacts : List Artifact) (x : Artifact)
    → of_kind kind artifacts ≡ some x
    → (x.kind ≡ kind) × IsFirst artifacts x
unfolding of_kind
of_kind-some kind [] x h = absurd (cc h)
of_kind-some kind (a ∷ artifacts) x h = elim (Bool-cases (str_eq a.kind kind)) [
  | inl e ↦
      let same : a ≡ x = cc (rw e at h) in
      (cc (same, (str_eq_iff a.kind kind).0 e), ([], artifacts, ap (λ y. y ∷ artifacts) same, tt))
  | inr e ↦
      let (k, (earlier, later, p, all)) = of_kind-some kind artifacts x (rw e at h) in
      (k, (a ∷ earlier, later, ap (λ l. a ∷ l) p, (λ q. str_eq-ne a.kind kind e (q ∙ k), all)))
]

first_kind-none :
    (kinds : List String) (artifacts : List Artifact)
    → first_kind kinds artifacts ≡ none
    → All (IsMissing artifacts) kinds
unfolding first_kind
first_kind-none [] artifacts h = tt
first_kind-none (kind ∷ kinds) artifacts h = elim (Option-cases (of_kind kind artifacts)) [
  | inl e ↦ (of_kind-none kind artifacts e, first_kind-none kinds artifacts (rw e at h))
  | inr (x, e) ↦ absurd (cc (rw e at h))
]

first_kind-some :
    (kinds : List String) (artifacts : List Artifact) (x : Artifact)
    → first_kind kinds artifacts ≡ some x
    → IsFirstOf artifacts kinds x
unfolding first_kind
first_kind-some [] artifacts x h = absurd (cc h)
first_kind-some (kind ∷ kinds) artifacts x h = elim (Option-cases (of_kind kind artifacts)) [
  | inl e ↦
      let (better, worse, p, all, f) = first_kind-some kinds artifacts x (rw e at h) in
      (kind ∷ better, worse, ap (λ l. kind ∷ l) p, (of_kind-none kind artifacts e, all), f)
  | inr (y, e) ↦
      let (k, f) = of_kind-some kind artifacts x (e ∙ (rw e at h)) in
      ([], kinds, ap (λ s. s ∷ kinds) (sym k), tt, f)
]

module _ (by_name : String → Option Candidate) (staged : Staged) where
  -- The flasher is known, and does not support the device or was staged nothing that it accepts.
  pub record IsPassedOver (name : String) : Type 0 where
    pub candidate : Candidate
    pub known : by_name name ≡ some candidate
    pub nothing : (candidate.supports ≡ false) ⊎ All (IsMissing staged.artifacts) candidate.accepts

  -- The flasher is known, supports the device, and the artifact is the first staged of the first kind that
  -- it accepts and that was staged.
  pub record IsTaken (name : String) (artifact : Artifact) : Type 0 where
    pub candidate : Candidate
    pub known : by_name name ≡ some candidate
    pub supports : candidate.supports ≡ true
    pub staged_for : IsFirstOf staged.artifacts candidate.accepts artifact

  offer-none :
      (name : String) (c : Candidate)
      → by_name name ≡ some c
      → offer staged c ≡ none
      → IsPassedOver name
  unfolding first_of
  offer-none name c e o = record {
    candidate = c;
    known = e;
    nothing = elim (Bool-cases c.supports) [
      | inl s ↦ inr (first_kind-none c.accepts staged.artifacts (rw s at o))
      | inr s ↦ inl s
    ];
  }

  offer-some :
      (name : String) (c : Candidate) (x : Artifact)
      → by_name name ≡ some c
      → offer staged c ≡ some x
      → IsTaken name x
  unfolding first_of
  offer-some name c x e o = elim (Bool-cases c.supports) [
    | inl s ↦ record {
      candidate = c;
      known = e;
      supports = s;
      staged_for = first_kind-some c.accepts staged.artifacts x (rw s at o);
    }
    | inr s ↦ absurd (cc (rw s at o))
  ]

  -- What an answer of `resolve` says of the family's list.
  abbrev pub Answers : List String → Result String (Option (String × Artifact)) → Type 0
  Answers names (ok none) = All IsPassedOver names
  Answers names (ok (some (name, artifact))) =
      (before : List String) × (after : List String) × (names ≡ before ++ (name ∷ after))
      × All IsPassedOver before
      × IsTaken name artifact
  Answers names (err name) =
      (before : List String) × (after : List String) × (names ≡ before ++ (name ∷ after))
      × All IsPassedOver before
      × (by_name name ≡ none)

  Answers-cons :
      (name : String) (names : List String) (answer : Result String (Option (String × Artifact)))
      → IsPassedOver name
      → Answers names answer
      → Answers (name ∷ names) answer
  Answers-cons name names (ok none) p a = (p, a)
  Answers-cons name names (ok (some (n, x))) p (before, after, e, all, t) =
      (name ∷ before, after, ap (λ l. name ∷ l) e, (p, all), t)
  Answers-cons name names (err n) p (before, after, e, all, t) =
      (name ∷ before, after, ap (λ l. name ∷ l) e, (p, all), t)

  -- What `resolve` gives is a flasher of the list that supports the device, with the first artifact that
  -- was staged of the first kind it accepts that was staged at all, and it has passed over every flasher
  -- before it; where it gives none it has passed over all, and where it raises it is for a name that is
  -- not known, with all before it passed over. A flasher is passed over that does not support the device
  -- or that was staged no kind it accepts.
  pub resolve-Answers : (names : List String) → Answers names (resolve by_name staged names)
  unfolding resolve
  resolve-Answers [] = tt
  resolve-Answers (name ∷ names) = elim (Option-cases (by_name name)) [
    | inl e ↦ rw (e, resolve) ([], names, refl, tt, e)
    | inr (c, e) ↦ elim (Option-cases (offer staged c)) [
      | inl o ↦
          rw (e, resolve)
            (rw o (
              Answers-cons name names (resolve by_name staged names) (offer-none name c e o)
                (resolve-Answers names)))
      | inr (x, o) ↦ rw (e, resolve) (rw o ([], names, refl, tt, offer-some name c x e o))
    ]
  ]
