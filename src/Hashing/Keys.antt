-- ===== src/Hashing/Keys.antt =====
-- About the lookup keys of _internal/hash_utils.py, whose parts a NUL separates.
use nexus_spark_lib.Base.{arith, ◌==◌, true, not, all, Text, ◌≡◌, ◌≢◌, refl, [], ◌∷◌, All}
use nexus_spark_lib.Hashing.{nul_join, er_source_lookup_key}

abbrev pub NoNul : Text → Type 0
NoNul s = All (λ c. c ≢ 0) s

-- The test of a text for a NUL.
pub all-NoNul : (s : Text) → all (λ c. not (c == 0)) s ≡ true → NoNul s
unfolding all
all-NoNul [] h = tt
all-NoNul (c ∷ s) h = ((λ e. ground arith), all-NoNul s (ground (arith, h)))

nul_join_inj :
    (s t u v : Text) → NoNul s → NoNul t → nul_join s u ≡ nul_join t v → (s ≡ t) × (u ≡ v)
nul_join_inj [] [] u v hs ht e = (refl, cc)
nul_join_inj [] (c ∷ t) u v hs ht e = absurd (ht.0 (cc))
nul_join_inj (c ∷ s) [] u v hs ht e = absurd (hs.0 (cc))
nul_join_inj (c ∷ s) (d ∷ t) u v hs ht e =
    let (p, q) = nul_join_inj s t u v hs.1 ht.1 (cc) in (cc, q)

-- Equal source lookup keys are of equal tenants, connectors, tables and record ids, if the first
-- three hold no NUL.
pub er_source_lookup_key_inj :
    (t c b r t' c' b' r' : Text)
    → NoNul t × NoNul c × NoNul b
    → NoNul t' × NoNul c' × NoNul b'
    → er_source_lookup_key t c b r ≡ er_source_lookup_key t' c' b' r'
    → (t ≡ t') × (c ≡ c') × (b ≡ b') × (r ≡ r')
unfolding er_source_lookup_key
er_source_lookup_key_inj t c b r t' c' b' r' h k e =
    let (p, e1) = nul_join_inj t t' _ _ h.0 k.0 (cc) in
    let (q, e2) = nul_join_inj c c' _ _ h.1 k.1 e1 in
    let (s, u) = nul_join_inj b b' r r' h.2 k.2 e2 in (p, q, s, u)
