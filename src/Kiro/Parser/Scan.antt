-- ===== src/Kiro/Parser/Scan.antt =====
-- What is found in a buffer stays found when more of the stream comes in.
use rasp_api_gravity.Base.Bytes.{Text}
use rasp_api_gravity.Base.Search.{
  starts_with, later, find, earlier, starts_with_past, starts_with-append, drop-append,
}
use rasp_api_gravity.Base.{
  ℕ, zero, suc, ◌<◌, ◌≡◌, refl, sym, ap, ◌∙◌, Bool, true, false, not, ◌&&◌, ◌||◌, List, [], ◌∷◌,
  ◌++◌, Option, none, some, ◌==◌, if◌then◌else◌, length, take, drop, Bool-cases, Option-cases, inl,
  inr, All, arith, length-drop,
}
use rasp_api_gravity.Core.Serde.{Serde}
use rasp_api_gravity.Kiro.Parser.{
  markers, first_of, next_object_start, Braces, start, on_char, end_loop, object_end, next_object,
}

-- Some marker starts here.
any_starts : List Text → Text → Bool
any_starts [] t = false
any_starts (m ∷ ms) t = starts_with m t || any_starts ms t

earlier-later : (a b : Option ℕ) → earlier (later a) (later b) ≡ later (earlier a b)
earlier-later none b = refl
earlier-later (some a) none = refl
earlier-later (some a) (some b) = refl

earlier_zero : (a : Option ℕ) → earlier a (some 0) ≡ some 0
earlier_zero none = refl
earlier_zero (some zero) = refl
earlier_zero (some (suc n)) = refl

zero_earlier : (a : Option ℕ) → earlier (some 0) a ≡ some 0
zero_earlier none = refl
zero_earlier (some n) = refl

first_of_step :
    (ms : List Text) (c : ℕ) (cs : Text)
    → first_of ms (c ∷ cs) ≡ (if any_starts ms (c ∷ cs) then some 0 else later (first_of ms cs))
unfolding first_of any_starts
first_of_step [] c cs = refl
first_of_step (m ∷ ms) c cs = elim (Bool-cases (starts_with m (c ∷ cs))) [
  | inl here ↦ rw (here, find) (zero_earlier (first_of ms (c ∷ cs)))
  | inr elsewhere ↦ elim (Bool-cases (any_starts ms (c ∷ cs))) [
    | inl here ↦ rw (first_of_step ms c cs, elsewhere, here) (earlier_zero (later (find m cs)))
    | inr nowhere ↦
        rw (first_of_step ms c cs, nowhere, elsewhere, find)
          (earlier-later (find m cs) (first_of ms cs))
  ]
]

no_brace : Text → Bool
no_brace [] = true
no_brace (c ∷ cs) = not (c == b'{') && no_brace cs

-- The first character of a marker is its only opening brace.
abbrev OpensOnce : Text → Type 0
OpensOnce [] = ⊥
OpensOnce (c ∷ cs) = (c ≡ b'{') × (no_brace cs ≡ true)

markers-OpensOnce : All OpensOnce markers
unfolding no_brace
markers-OpensOnce = (
  (refl, refl),
  ((refl, refl), ((refl, refl), ((refl, refl), ((refl, refl), ((refl, refl), tt))))),
)

no_brace_prefix : (t m : Text) → starts_with t m ≡ true → no_brace m ≡ true → no_brace t ≡ true
unfolding starts_with no_brace
no_brace_prefix [] m h k = refl
no_brace_prefix (c ∷ cs) [] h k = ground (arith, h)
no_brace_prefix (c ∷ cs) (d ∷ ds) h k = ground (arith, h, k, no_brace_prefix cs ds)

any_starts_append :
    (ms : List Text) (t u : Text) → any_starts ms t ≡ true → any_starts ms (t ++ u) ≡ true
unfolding any_starts
any_starts_append [] t u h = h
any_starts_append (m ∷ ms) t u h =
    ground (arith, h, starts_with-append m t u, any_starts_append ms t u)

-- A marker that shows only with the later characters leaves no brace behind its own.
marker_past :
    (m : Text) (c : ℕ) (cs u : Text)
    → OpensOnce m
    → starts_with m (c ∷ cs ++ u) ≡ true
    → starts_with m (c ∷ cs) ≡ false
    → no_brace cs ≡ true
unfolding starts_with
marker_past [] c cs u once h k = elim once [ ]
marker_past (d ∷ ds) c cs u (opens, rest) h k =
    no_brace_prefix cs ds (ground (arith, starts_with_past (d ∷ ds) (c ∷ cs) u h k)) rest

any_past :
    (ms : List Text) (c : ℕ) (cs u : Text)
    → All OpensOnce ms
    → any_starts ms (c ∷ cs ++ u) ≡ true
    → any_starts ms (c ∷ cs) ≡ false
    → no_brace cs ≡ true
unfolding any_starts
any_past [] c cs u once h k = ground (arith, h)
any_past (m ∷ ms) c cs u (opens, once) h k =
    ground (arith, h, k, marker_past m c cs u opens, any_past ms c cs u once)

no_marker : (m : Text) (t : Text) → OpensOnce m → no_brace t ≡ true → find m t ≡ none
unfolding find no_brace
no_marker [] t once h = elim once [ ]
no_marker (d ∷ ds) [] once h = refl
no_marker (d ∷ ds) (c ∷ cs) (opens, rest) h =
    ground (arith, opens, h, no_marker (d ∷ ds) cs (opens, rest))

nowhere : (ms : List Text) (t : Text) → All OpensOnce ms → no_brace t ≡ true → first_of ms t ≡ none
unfolding first_of
nowhere [] t once h = refl
nowhere (m ∷ ms) t (opens, once) h = rw (no_marker m t opens h) (nowhere ms t once h)

later_inv : (o : Option ℕ) (n : ℕ) → later o ≡ some n → (m : ℕ) × ((o ≡ some m) × (n ≡ suc m))
later_inv none n h = cc
later_inv (some m) n h = (m, (refl, ground (arith, h)))

first_of_append :
    (ms : List Text) (t u : Text) (p : ℕ)
    → All OpensOnce ms
    → first_of ms t ≡ some p
    → (first_of ms (t ++ u) ≡ some p) × (p < length t)
first_of_append ms [] u p once h = let gone = nowhere ms [] once (unfold no_brace in refl) in cc
first_of_append ms (c ∷ cs) u p once h = elim (Bool-cases (any_starts ms (c ∷ cs))) [
  | inl here ↦
      let at_zero = rw (first_of_step ms c cs, here) at h in
      (
        rw (first_of_step ms c (cs ++ u), any_starts_append ms (c ∷ cs) u here) at_zero,
        ground (arith, at_zero),
      )
  | inr elsewhere ↦
      let (q, (found, further)) =
        later_inv (first_of ms cs) p (rw (first_of_step ms c cs, elsewhere) at h) in
      let (kept, inside) = first_of_append ms cs u q once found in
      elim (Bool-cases (any_starts ms (c ∷ cs ++ u))) [
        | inl straddles ↦
            let gone = nowhere ms cs once (any_past ms c cs u once straddles elsewhere) in
            cc (found, gone)
        | inr still ↦ (
          rw (first_of_step ms c (cs ++ u), still) (rw kept (ap some (sym further))),
          omega arith,
        )
      ]
]

end_loop_append :
    (s : Braces) (t u : Text) (e : ℕ)
    → end_loop s t ≡ some e
    → (end_loop s (t ++ u) ≡ some e) × (e < length t)
unfolding end_loop
end_loop_append s [] u e h = unfold end_loop in cc
end_loop_append s (c ∷ cs) u e h = elim (Option-cases (on_char s c)) [
  | inr closed ↦
      let here = rw (closed, end_loop) at h in (rw (closed, end_loop) here, ground (arith, here))
  | inl (s', inside_it) ↦
      let more = rw (inside_it, end_loop) at h in
      let (d, (found, further)) = later_inv (end_loop s' cs) e more in
      let (kept, inside) = end_loop_append s' cs u d found in
      (rw (inside_it, end_loop) (rw kept (ap some (sym further))), omega arith)
]

take_inside {ℓ} :
    {A : Type ℓ} (n : ℕ) (xs ys : List A)
    → n < length xs
    → take (suc n) (xs ++ ys) ≡ take (suc n) xs
take_inside n [] ys h = ground (arith, h)
take_inside zero (x ∷ xs) ys h = refl
take_inside (suc n) (x ∷ xs) ys h = ap (◌∷◌ x) (take_inside n xs ys (omega arith))

drop_inside {ℓ} :
    {A : Type ℓ} (n : ℕ) (xs ys : List A)
    → n < length xs
    → drop (suc n) (xs ++ ys) ≡ drop (suc n) xs ++ ys
drop_inside n [] ys h = ground (arith, h)
drop_inside zero (x ∷ xs) ys h = refl
drop_inside (suc n) (x ∷ xs) ys h = drop_inside n xs ys (omega arith)

module _ (serde : Serde) where
  next_object_at :
      (t : Text) (p e : ℕ)
      → next_object_start t ≡ some p
      → object_end (drop p t) ≡ some e
      → next_object serde t ≡ some (take (suc e) (drop p t), drop (suc e) (drop p t))
  unfolding next_object
  next_object_at t p e starts ends = rw (starts, next_object, ends) refl

  -- A complete object is found again, the same, with more behind it.
  pub next_object_append :
      (t u json_str rest : Text)
      → next_object serde t ≡ some (json_str, rest)
      → (next_object serde (t ++ u) ≡ some (json_str, rest ++ u)) × (length rest < length t)
  unfolding next_object
  next_object_append t u json_str rest h = elim (Option-cases (next_object_start t)) [
    | inr nothing ↦ let none_found = rw (nothing, next_object) at h in cc
    | inl (p, starts) ↦
        let (kept, inside) =
          first_of_append markers t u p markers-OpensOnce (unfold next_object_start in starts) in
        elim (Option-cases (object_end (drop p t))) [
          | inr incomplete ↦ let none_found = rw (starts, next_object, incomplete) at h in cc
          | inl (e, ends) ↦
              let got = rw (starts, next_object, ends) at h in
              let (closed, within) =
                end_loop_append start (drop p t) u e (unfold object_end in ends) in
              let taken : take (suc e) (drop p t) ≡ json_str = cc in
              let left : drop (suc e) (drop p t) ≡ rest = cc in
              (
                next_object_at (t ++ u) p e (unfold next_object_start in kept)
                      (rw (drop-append p t u inside) (unfold object_end in closed))
                    ∙ rw (drop-append p t u inside) (
                        rw
                          (
                            take_inside e (drop p t) u within,
                            drop_inside e (drop p t) u within,
                            taken,
                            left,
                          )
                          refl),
                rw (← left)
                    (omega (arith, inside, length-drop (suc e) (drop p t), length-drop p t)),
              )
        ]
  ]
