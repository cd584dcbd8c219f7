-- ===== src/Oracle/Pruned.antt =====
-- What `observe` of src/modules/oracle.ts keeps of the observations of a pair.
use coralswap_sdk.Common.{
  ℕ, zero, suc, ◌+◌, ◌-◌, ◌≤◌, ◌<◌, ◌≡◌, inl, inr, refl, arith, true, false, List, [], ◌∷◌, ◌++◌,
  length, length-append, length-drop, drop, Bool-cases, leb, ltb,
}
use coralswap_sdk.Oracle.{TwapObservation, drop_covered, cap, push}

-- The list ends with `o`.
abbrev pub Ends : TwapObservation → List TwapObservation → Type 0
Ends o l = (before : List TwapObservation) × (l ≡ before ++ o ∷ [])

-- The oldest observation is at least the smallest window older than `newest`.
abbrev pub Covers : (newest : ℕ) → List TwapObservation → Type 0
Covers newest [] = ⊥
Covers newest (oldest ∷ others) = oldest.block_timestamp_last + 300 ≤ newest

-- The second oldest is not.
abbrev pub Recent : (newest : ℕ) → List TwapObservation → Type 0
Recent newest [] = Unit
Recent newest (oldest ∷ []) = Unit
Recent newest (oldest ∷ next ∷ others) = newest < next.block_timestamp_last + 300

drop_covered-Ends :
    (newest : ℕ) (xs : List TwapObservation) (o : TwapObservation)
    → Ends o (drop_covered newest (xs ++ o ∷ []))
drop_covered-Ends newest [] o = ([], refl)
drop_covered-Ends newest (x ∷ []) o =
    elim (Bool-cases (leb (o.block_timestamp_last + 300) newest)) [
      | inl old ↦ rw old ([], refl)
      | inr recent ↦ rw recent (x ∷ [], refl)
    ]
drop_covered-Ends newest (x ∷ y ∷ xs) o =
    let others = drop_covered-Ends newest (y ∷ xs) o in
    elim (Bool-cases (leb (y.block_timestamp_last + 300) newest)) [
      | inl old ↦ rw old others
      | inr recent ↦ rw recent (x ∷ y ∷ xs, refl)
    ]

drop_covered_shorter :
    (newest : ℕ) (l : List TwapObservation) → length (drop_covered newest l) ≤ length l
drop_covered_shorter newest [] = omega arith
drop_covered_shorter newest (x ∷ []) = omega arith
drop_covered_shorter newest (x ∷ y ∷ l) =
    let others = drop_covered_shorter newest (y ∷ l) in
    elim (Bool-cases (leb (y.block_timestamp_last + 300) newest)) [
      | inl old ↦ rw old (omega arith)
      | inr recent ↦ rw recent (omega arith)
    ]

drop_covered-Recent :
    (newest : ℕ) (l : List TwapObservation) → Recent newest (drop_covered newest l)
drop_covered-Recent newest [] = tt
drop_covered-Recent newest (x ∷ []) = tt
drop_covered-Recent newest (x ∷ y ∷ l) =
    let others = drop_covered-Recent newest (y ∷ l) in
    elim (Bool-cases (leb (y.block_timestamp_last + 300) newest)) [
      | inl old ↦ rw old others
      | inr recent ↦ rw recent (young y recent)
    ]
  where
    young :
        (y : TwapObservation)
        → leb (y.block_timestamp_last + 300) newest ≡ false
        → newest < y.block_timestamp_last + 300
    young y h = ground arith

drop_covered-Covers :
    (newest : ℕ) (l : List TwapObservation)
    → Covers newest l
    → Covers newest (drop_covered newest l)
drop_covered-Covers newest [] c = elim c [ ]
drop_covered-Covers newest (x ∷ []) c = c
drop_covered-Covers newest (x ∷ y ∷ l) c =
    let others = drop_covered-Covers newest (y ∷ l) in
    elim (Bool-cases (leb (y.block_timestamp_last + 300) newest)) [
      | inl old ↦ rw old (others (covers y old))
      | inr recent ↦ rw recent c
    ]
  where
    covers :
        (y : TwapObservation)
        → leb (y.block_timestamp_last + 300) newest ≡ true
        → y.block_timestamp_last + 300 ≤ newest
    covers y h = ground arith

Covers-append :
    (newest : ℕ) (xs ys : List TwapObservation) → Covers newest xs → Covers newest (xs ++ ys)
Covers-append newest [] ys c = elim c [ ]
Covers-append newest (x ∷ xs) ys c = c

drop-Ends :
    (k : ℕ) (xs : List TwapObservation) (o : TwapObservation)
    → k ≤ length xs
    → Ends o (drop k (xs ++ o ∷ []))
drop-Ends zero xs o h = (xs, refl)
drop-Ends (suc k) [] o h = elim h [ ]
drop-Ends (suc k) (x ∷ xs) o h = drop-Ends k xs o (omega arith)

cap-Ends : (xs : List TwapObservation) (o : TwapObservation) → Ends o (cap (xs ++ o ∷ []))
cap-Ends xs o = elim (Bool-cases (ltb 500 (length (xs ++ o ∷ [])))) [
  | inl long ↦
      rw long (drop-Ends (length (xs ++ o ∷ []) - 500) xs o (rest (length-append xs (o ∷ []))))
  | inr short ↦ rw short (xs, refl)
]
  where
    rest : length (xs ++ o ∷ []) ≡ length xs + 1 → length (xs ++ o ∷ []) - 500 ≤ length xs
    rest h = omega arith

length-cap : (l : List TwapObservation) → length (cap l) ≤ 500
length-cap l = elim (Bool-cases (ltb 500 (length l))) [
  | inl long ↦ rw long (rw (length-drop (length l - 500) l) (omega arith))
  | inr short ↦ rw short (few (length l) short)
]
  where
    few : (n : ℕ) → ltb 500 n ≡ false → n ≤ 500
    few n h = ground arith

cap_short : (l : List TwapObservation) → length l ≤ 500 → cap l ≡ l
cap_short l h = rw (not_long (length l) h) refl
  where
    not_long : (n : ℕ) → n ≤ 500 → ltb 500 n ≡ false
    not_long n h = ground arith

module _ (existing : List TwapObservation) (o : TwapObservation) where
  abbrev added : List TwapObservation
  added = existing ++ o ∷ []

  abbrev covered : List TwapObservation
  covered = drop_covered o.block_timestamp_last added

  pub push-Ends : Ends o (push existing o)
  unfolding push
  push-Ends =
      let (before, e) = drop_covered-Ends o.block_timestamp_last existing o in
      rw e (cap-Ends before o)

  pub length-push : length (push existing o) ≤ 500
  unfolding push
  length-push = length-cap covered

  -- Nothing is cut off while there is room.
  room : length existing < 500 → push existing o ≡ covered
  unfolding push
  room h =
      cap_short covered
        (few (length-append existing (o ∷ [])) (drop_covered_shorter o.block_timestamp_last added))
    where
      few :
          length added ≡ length existing + 1 → length covered ≤ length added → length covered ≤ 500
      few e k = omega arith

  pub push-Covers :
      length existing < 500
      → Covers o.block_timestamp_last existing
      → Covers o.block_timestamp_last (push existing o)
        × Recent o.block_timestamp_last (push existing o)
  push-Covers h c = rw (room h) (
    drop_covered-Covers o.block_timestamp_last added
        (Covers-append o.block_timestamp_last existing (o ∷ []) c),
    drop_covered-Recent o.block_timestamp_last added,
  )
