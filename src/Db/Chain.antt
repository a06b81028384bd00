-- ===== src/Db/Chain.antt =====
-- The `while True` loop that follows pointers and stops at a row without one or at a row that it
-- has visited: resolve_successor of db/golden_records.py and resolve_redirect of db/redirects.py.
use nexus_spark_lib.Base.{
  Text, ℕ, zero, suc, ◌<◌, ◌≤◌, ◌≡◌, ◌⊎◌, inl, inr, Bool, true, false, not, Option, none, some,
  List, [], ◌∷◌, arith, if◌then◌else◌, any, count_of, All, text_eq, text_eq→eq, text_eq_iff,
  Bool-cases, Option-cases, length,
}

unfoldable pub visited_before : List Text → Text → Bool
unfolding any
visited_before visited current = any (λ v. text_eq v current) visited

module _ (next : Text → Option Text) where
  -- `none` means that the fuel ran out.
  unfoldable pub chase : ℕ → List Text → Text → Option Text
  chase zero visited current = none
  chase (suc fuel) visited current =
      if visited_before visited current then some current else elim (next current) [
        | none ↦ some current
        | some successor ↦ chase fuel (current ∷ visited) successor
      ]

  pub data Reaches : Text → Text → Type 0 where
    here : (a : Text) → Reaches a a
    step : (a b c : Text) → next a ≡ some b → Reaches b c → Reaches a c

  pub Reaches-snoc : {a b : Text} (c : Text) → Reaches a b → next b ≡ some c → Reaches a c
  Reaches-snoc c (here a) e = step a c c e (here c)
  Reaches-snoc c (step a m b p r) e = step a m c p (Reaches-snoc c r e)

  -- At least one pointer leads from `a` to `b`.
  pub record LeadsTo (a b : Text) : Type 0 where
    pub via : Text
    pub first : next a ≡ some via
    pub rest : Reaches via b

  -- Where a chain may end.
  abbrev pub IsEnd : Text → Type 0
  IsEnd r = (next r ≡ none) ⊎ LeadsTo r r

  LeadsTo-snoc : (a b c : Text) → next b ≡ some c → LeadsTo a b → LeadsTo a c
  LeadsTo-snoc a b c e l = record { via = l.via; first = l.first; rest = Reaches-snoc c l.rest e }

  All-LeadsTo-snoc :
      (b c : Text) (vs : List Text)
      → next b ≡ some c
      → All (λ v. LeadsTo v b) vs
      → All (λ v. LeadsTo v c) vs
  All-LeadsTo-snoc b c [] e h = tt
  All-LeadsTo-snoc b c (v ∷ vs) e h = (LeadsTo-snoc v b c e h.0, All-LeadsTo-snoc b c vs e h.1)

  cycle_of_visited :
      (current : Text) (vs : List Text)
      → All (λ v. LeadsTo v current) vs
      → visited_before vs current ≡ true
      → LeadsTo current current
  unfolding visited_before
  cycle_of_visited current [] h e = absurd (elim (none_true e) [ ])
    where
      none_true : false ≡ true → ⊥
      none_true p = cc
  cycle_of_visited current (v ∷ vs) h e = elim (Bool-cases (text_eq v current)) [
    | inl same ↦ subst_leads (text_eq→eq v current same) h.0
    | inr other ↦ cycle_of_visited current vs h.1 (rw other at e)
  ]
    where
      subst_leads : v ≡ current → LeadsTo v current → LeadsTo current current
      subst_leads p l = rw p at l

  -- Pointers leave the rows of `keys` alone.
  abbrev pub IsWithin : List Text → Type 0
  IsWithin keys = (a b : Text) → next a ≡ some b → visited_before keys a ≡ true

abbrev pub fresh : List Text → Text → Bool
fresh visited k = not (visited_before visited k)

abbrev pub unvisited : List Text → List Text → ℕ
unvisited keys visited = count_of (fresh visited) keys

unvisited-le_visit :
    (keys visited : List Text) (a : Text) → unvisited keys (a ∷ visited) ≤ unvisited keys visited
unfolding count_of visited_before
unvisited-le_visit [] visited a = omega arith
unvisited-le_visit (k ∷ keys) visited a = ground (arith, unvisited-le_visit keys visited a)

-- A visit of a new key leaves fewer to visit.
unvisited-lt_visit :
    (keys visited : List Text) (a : Text)
    → visited_before keys a ≡ true
    → visited_before visited a ≡ false
    → unvisited keys (a ∷ visited) < unvisited keys visited
unfolding count_of visited_before
unvisited-lt_visit [] visited a h n = cc
unvisited-lt_visit (k ∷ keys) visited a h n = ground (
  arith,
  text_eq_iff k a,
  text_eq_iff a k,
  unvisited-le_visit keys visited a,
  unvisited-lt_visit keys visited a,
)

unvisited-le-length : (keys : List Text) → unvisited keys [] ≤ length keys
unfolding count_of visited_before
unvisited-le-length [] = omega arith
unvisited-le-length (k ∷ keys) = ground (arith, unvisited-le-length keys)

module _ (next : Text → Option Text) (keys : List Text) (within : IsWithin next keys) where
  chase_ends :
      (fuel : ℕ) (visited : List Text) (start current : Text)
      → unvisited keys visited < fuel
      → Reaches next start current
      → All (λ v. LeadsTo next v current) visited
      → (r : Text) × (chase next fuel visited current ≡ some r)
        × Reaches next start r
        × IsEnd next r
  unfolding chase
  chase_ends zero visited start current h r vs = absurd (omega arith)
  chase_ends (suc fuel) visited start current h r vs =
      elim (Bool-cases (visited_before visited current)) [
        | inl seen ↦ (current, rw seen, r, inr (cycle_of_visited next current visited vs seen))
        | inr new ↦ elim (Option-cases (next current)) [
          | inl last ↦ (current, rw (new, last), r, inl last)
          | inr (n, e) ↦
              let (a, p, q, z) =
                chase_ends fuel (current ∷ visited) start n
                  (omega (arith, unvisited-lt_visit keys visited current (within current n e) new))
                  (Reaches-snoc next n r e)
                  (
                    record { via = n; first = e; rest = here n },
                    All-LeadsTo-snoc next current n visited e vs,
                  ) in
              (a, rw (new, e) p, q, z)
        ]
      ]

  -- With one step more than there are rows, the walk ends at an end of the chain of its start.
  pub chase_total :
      (start : Text)
      → (r : Text) × (chase next (suc (length keys)) [] start ≡ some r)
        × Reaches next start r
        × IsEnd next r
  chase_total start =
      chase_ends (suc (length keys)) [] start start (omega (arith, unvisited-le-length keys))
        (here start) tt

-- A chain of one pointer.
pub chase_one :
    (next : Text → Option Text) (m : ℕ) (a b : Text)
    → next a ≡ some b
    → next b ≡ none
    → text_eq a b ≡ false
    → chase next (suc (suc m)) [] a ≡ some b
unfolding chase visited_before
chase_one next m a b e f ne = rw (e, ne, f)
