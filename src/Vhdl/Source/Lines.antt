-- ===== src/Vhdl/Source/Lines.antt =====
-- `Position` gives the line and the column that the newlines of the source determine.
use jcore_soc.Base.{
  ℕ, zero, suc, ◌+◌, ◌-◌, ◌/◌, ◌≤◌, ◌<◌, ◌≡◌, refl, sym, ap, subst, ◌∙◌, inl, inr, Bool, true,
  false, List, [], ◌∷◌, ◌++◌, arith, ltb, leb, ◌==◌, if◌then◌else◌, Bool-cases, length, get_or,
  take, drop, length-append, All, Bytes,
}
use jcore_soc.Vhdl.Source.{Position, File, position, pos, sort_search, search_from, starts_behind}
use jcore_soc.Vhdl.Lexer.Advances.{line_starts, line_starts-append}

-- The binary search finds the border `m` between the indices that fail and those that pass.
search_from-border :
    (fuel : ℕ) (p : ℕ → Bool) (i j m n : ℕ)
    → j < i + fuel
    → i ≤ m
    → m ≤ j
    → j ≤ n
    → ((k : ℕ) → k < m → p k ≡ false)
    → ((k : ℕ) → m ≤ k → k < n → p k ≡ true)
    → search_from fuel p i j ≡ m
unfolding search_from
search_from-border zero p i j m n f im mj jn below above = absurd (omega arith)
search_from-border (suc fuel) p i j m n f im mj jn below above =
    let h = (i + j) / 2 in
    elim (Bool-cases (ltb i j)) [
      | inr e ↦ rw (e, search_from) (ground arith)
      | inl e ↦
          let lt : i < j = ground arith in
          elim (Bool-cases (p h)) [
            | inl y ↦
                rw (e, search_from, y)
                  (search_from-border fuel p i h m n (omega arith) im (passes_le h y) (omega arith)
                    below above)
            | inr y ↦
                rw (e, search_from, y)
                  (search_from-border fuel p (h + 1) j m n (omega arith)
                    (fails_lt h (omega arith) y) mj jn below above)
          ]
    ]
  where
    passes_le : (h : ℕ) → p h ≡ true → m ≤ h
    passes_le h y = elim (Bool-cases (leb m h)) [
      | inl le ↦ ground arith
      | inr gt ↦ cc (y, below h (ground arith))
    ]

    fails_lt : (h : ℕ) → h < j → p h ≡ false → h + 1 ≤ m
    fails_lt h lt y = elim (Bool-cases (leb m h)) [
      | inl le ↦ cc (y, above h (ground arith) (omega arith))
      | inr gt ↦ ground arith
    ]

-- The line starts fall into those up to `off` and those behind it.
All-le-line_starts : (o : ℕ) (s : Bytes) → All (λ x. x ≤ o + length s) (line_starts o s)
All-le-line_starts o [] = tt
All-le-line_starts o (c ∷ s) =
    let later = weaken (line_starts (o + 1) s) (All-le-line_starts (o + 1) s) in
    elim (Bool-cases (c == b'\n')) [
      | inl y ↦ rw (y, All) (omega arith, later)
      | inr n ↦ rw (n, All) later
    ]
  where
    weaken :
        (xs : List ℕ) → All (λ x. x ≤ o + 1 + length s) xs → All (λ x. x ≤ o + suc (length s)) xs
    weaken [] h = tt
    weaken (x ∷ xs) (h, t) = (omega arith, weaken xs t)

All-gt-line_starts : (b o : ℕ) (s : Bytes) → b ≤ o → All (λ x. b < x) (line_starts o s)
All-gt-line_starts b o [] h = tt
All-gt-line_starts b o (c ∷ s) h =
    let later = All-gt-line_starts b (o + 1) s (omega arith) in
    elim (Bool-cases (c == b'\n')) [
      | inl y ↦ rw (y, All) (omega arith, later)
      | inr n ↦ rw (n, All) later
    ]

All-get_or : (P : ℕ → Type 0) (xs : List ℕ) (k d : ℕ) → All P xs → k < length xs → P (get_or xs k d)
All-get_or P [] k d h lt = absurd (omega arith)
All-get_or P (x ∷ xs) zero d h lt = h.0
All-get_or P (x ∷ xs) (suc k) d h lt = All-get_or P xs k d h.1 (omega arith)

get_or-append_left :
    (xs ys : List ℕ) (k d : ℕ) → k < length xs → get_or (xs ++ ys) k d ≡ get_or xs k d
get_or-append_left [] ys k d lt = absurd (omega arith)
get_or-append_left (x ∷ xs) ys zero d lt = refl
get_or-append_left (x ∷ xs) ys (suc k) d lt = get_or-append_left xs ys k d (omega arith)

get_or-append_right :
    (xs ys : List ℕ) (k d : ℕ) → length xs ≤ k → get_or (xs ++ ys) k d ≡ get_or ys (k - length xs) d
get_or-append_right [] ys k d h = ap (λ n. get_or ys n d) {x = k} {y = k - 0} (omega arith)
get_or-append_right (x ∷ xs) ys zero d h = absurd (omega arith)
get_or-append_right (x ∷ xs) ys (suc k) d h =
    get_or-append_right xs ys k d (omega arith)
    ∙ ap (λ n. get_or ys n d) {x = k - length xs} {y = suc k - suc (length xs)} (omega arith)

abbrev pub newlines : Bytes → ℕ
newlines [] = 0
newlines (c ∷ s) = (if c == b'\n' then 1 else 0) + newlines s

-- The bytes behind the last newline, after `acc` bytes of the line.
abbrev pub since_newline : ℕ → Bytes → ℕ
since_newline acc [] = acc
since_newline acc (c ∷ s) =
    let on = since_newline (acc + 1) s in
    let anew = since_newline 0 s in elim (c == b'\n') [ true ↦ anew | false ↦ on ]

length-line_starts : (o : ℕ) (s : Bytes) → length (line_starts o s) ≡ newlines s
length-line_starts o [] = refl
length-line_starts o (c ∷ s) = ground (arith, length-line_starts (o + 1) s)

last_or : ℕ → List ℕ → ℕ
last_or d [] = d
last_or d (x ∷ xs) = last_or x xs

get_or-last : (d : ℕ) (xs : List ℕ) → get_or (d ∷ xs) (length xs) 0 ≡ last_or d xs
unfolding last_or
get_or-last d [] = refl
get_or-last d (x ∷ xs) = get_or-last x xs

last_or-since_newline :
    (b o : ℕ) (s : Bytes)
    → b ≤ o
    → last_or b (line_starts o s) + since_newline (o - b) s ≡ o + length s
unfolding last_or
last_or-since_newline b o [] h = omega arith
last_or-since_newline b o (c ∷ s) h =
    let anew : last_or (o + 1) (line_starts (o + 1) s) + since_newline 0 s ≡ o + 1 + length s =
      ap (λ n. last_or (o + 1) (line_starts (o + 1) s) + since_newline n s) {x = 0}
        {y = o + 1 - (o + 1)} (omega arith)
      ∙ last_or-since_newline (o + 1) (o + 1) s (omega arith) in
    let on : last_or b (line_starts (o + 1) s) + since_newline (o - b + 1) s ≡ o + 1 + length s =
      ap (λ n. last_or b (line_starts (o + 1) s) + since_newline n s) {x = o - b + 1}
        {y = o + 1 - b} (omega arith)
      ∙ last_or-since_newline b (o + 1) s (omega arith) in
    ground arith

-- The lines that start up to `off` stand in front.
module _ (ps qs : List ℕ) (off : ℕ) (front : All (λ x. x ≤ off) ps)
    (behind : All (λ x. off < x) qs) where
  border-front : (k : ℕ) → k < length ps → ltb off (get_or (ps ++ qs) k 0) ≡ false
  border-front k h =
      let le = All-get_or (λ x. x ≤ off) ps k 0 front h in
      ground (arith, get_or-append_left ps qs k 0 h)

  border-behind :
      (k : ℕ) → length ps ≤ k → k < length (ps ++ qs) → ltb off (get_or (ps ++ qs) k 0) ≡ true
  border-behind k h lt =
      let q = k - length ps in
      let gt = All-get_or (λ x. off < x) qs q 0 behind (omega (arith, length-append ps qs)) in
      let at = get_or-append_right ps qs k 0 h in ground arith

  search-border : sort_search (length (ps ++ qs)) (λ k. ltb off (get_or (ps ++ qs) k 0)) ≡ length ps
  unfolding sort_search
  search-border =
      let n = length (ps ++ qs) in
      search_from-border (n + 1) (λ k. ltb off (get_or (ps ++ qs) k 0)) 0 n (length ps) n
        (omega arith) (omega arith) (omega (arith, length-append ps qs)) (omega arith) border-front
        border-behind

take-drop : (n : ℕ) (s : Bytes) → take n s ++ drop n s ≡ s
take-drop zero s = refl
take-drop (suc n) [] = refl
take-drop (suc n) (c ∷ s) = ap (λ t. c ∷ t) (take-drop n s)

length-take : (n : ℕ) (s : Bytes) → n ≤ length s → length (take n s) ≡ n
length-take zero s h = omega arith
length-take (suc n) [] h = absurd (omega arith)
length-take (suc n) (c ∷ s) h = omega (arith, length-take n s (omega arith))

abbrev at_index : File → ℕ → ℕ → Position
at_index f off i = record {
  filename = f.name;
  offset = off;
  line = i + 1;
  column = off - get_or f.lines i 0 + 1;
}

position-at_index :
    (f : File) (off : ℕ)
    → position f (pos f off)
      ≡ at_index f off (sort_search (length f.lines) (starts_behind f off) - 1)
unfolding position
position-at_index f off =
    ap (λ o. at_index f o (sort_search (length f.lines) (starts_behind f o) - 1))
      {x = f.base + off - f.base} {y = off} (omega arith)

module _ (f : File) (src : Bytes) (off : ℕ) (full : f.lines ≡ 0 ∷ line_starts 0 src)
    (within : off ≤ length src) where
  front : List ℕ
  front = line_starts 0 (take off src)

  lines_split : f.lines ≡ (0 ∷ front) ++ line_starts off (drop off src)
  unfolding front
  lines_split =
      full
      ∙ ap (λ s. 0 ∷ line_starts 0 s) (sym (take-drop off src))
      ∙ ap (λ t. 0 ∷ t) (line_starts-append 0 (take off src) (drop off src))
      ∙ ap (λ n. 0 ∷ (front ++ line_starts n (drop off src))) {x = 0 + length (take off src)}
          {y = off} (omega (arith, length-take off src within))

  front-le : (s : Bytes) → length s ≡ off → All (λ x. x ≤ off) (line_starts 0 s)
  front-le s e =
      subst (λ n. All (λ x. x ≤ n) (line_starts 0 s)) {x = 0 + length s} {y = off} (omega arith)
        (All-le-line_starts 0 s)

  index : sort_search (length f.lines) (starts_behind f off) ≡ suc (length front)
  unfolding front
  index = rw lines_split (
      search-border (0 ∷ front) (line_starts off (drop off src)) off
        (omega arith, front-le (take off src) (length-take off src within))
        (All-gt-line_starts off off (drop off src) (omega arith)))

  start : get_or f.lines (length front) 0 ≡ last_or 0 front
  start = rw lines_split (
      get_or-append_left (0 ∷ front) (line_starts off (drop off src)) (length front) 0 (omega arith)
      ∙ get_or-last 0 front)

  -- The position of offset `off` in a file with all its line starts: the line is one more than the
  -- newlines before it, and the column one more than the bytes since the last of them.
  pub position_lem : position f (pos f off) ≡ record {
    filename = f.name;
    offset = off;
    line = newlines (take off src) + 1;
    column = since_newline 0 (take off src) + 1;
  }
  unfolding front
  position_lem =
      position-at_index f off
      ∙ ap (at_index f off) {x = _} {y = length front} (omega (arith, index))
      ∙ ground (
        arith,
        start,
        length-line_starts 0 (take off src),
        last_or-since_newline 0 0 (take off src),
        length-take off src,
      )
