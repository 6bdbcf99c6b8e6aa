-- ===== src/Auth/Keys/Published.antt =====
-- The cache changes nothing that a caller sees, and the published set has the key that signs.
use blog_be.Prelude.{
  ne-==, String, ◌≡◌, ◌≢◌, refl, ◌∙◌, ap, sym, true, false, some, List, [], ◌∷◌, ◌==◌, string_eq,
  if◌then◌else◌, Bool-cases, Option-cases, inl, inr, arith,
}
use blog_be.Error.{runtime_error}
use blog_be.Exec.{Result, ok, err}
use blog_be.Server.Http.{codes}
use blog_be.Config.{Config, KeyLibrary, rsa_key, is_prod, is_blank, strip, prod_checks}
use blog_be.Config.Checks.{prod_checks-IsProdReady}
use blog_be.Auth.Keys.{
  RsaLibrary, KeyCache, member, set_member, jwt_algorithm, loaded_key, remember, private_key,
  public_key, labelled, public_jwk, jwks,
}

module _ {A : Type 0} where
  pub member-set_member :
      (k j : String) (v : A) (members : List (String × A))
      → member j (set_member k v members) ≡ (if j == k then some v else member j members)
  member-set_member k j v [] = ground (arith, string_eq.beq_iff k j, string_eq.beq_iff j k)
  member-set_member k j v ((i, w) ∷ members) = ground (
    arith,
    member-set_member k j v members,
    string_eq.beq_iff i k,
    string_eq.beq_iff i j,
    string_eq.beq_iff j k,
    string_eq.beq_iff k j,
  )

labels :
    (kid : String) (jwk : List (String × String))
    → let out =
        set_member "alg" jwt_algorithm (set_member "use" "sig" (set_member "kid" kid jwk)) in
      (member "kid" out ≡ some kid)
      × (member "use" out ≡ some "sig")
      × (member "alg" out ≡ some jwt_algorithm)
      × ((name : String)
          → name ≢ "kid"
          → name ≢ "use"
          → name ≢ "alg"
          → member name out ≡ member name jwk)
labels kid jwk =
    let used = set_member "kid" kid jwk in
    let sig = set_member "use" "sig" used in
    (
      member-set_member "alg" "kid" jwt_algorithm sig
          ∙ member-set_member "use" "kid" "sig" used
          ∙ member-set_member "kid" "kid" kid jwk,
      member-set_member "alg" "use" jwt_algorithm sig ∙ member-set_member "use" "use" "sig" used,
      member-set_member "alg" "alg" jwt_algorithm sig,
      λ name not_kid not_use not_alg.
          member-set_member "alg" name jwt_algorithm sig
          ∙ rw (ne-== name "alg" not_alg) refl
          ∙ member-set_member "use" name "sig" used
          ∙ rw (ne-== name "use" not_use) refl
          ∙ member-set_member "kid" name kid jwk
          ∙ rw (ne-== name "kid" not_kid) refl,
    )

module _ {K : Type 0} (lib : KeyLibrary K) where
  -- each cached key is the one that its PEM loads
  abbrev pub IsCache : KeyCache K → Type 0
  IsCache cache =
      (pem : String) (k : K)
      → member pem cache ≡ some k
      → loaded_key lib (lib.load_pem (codes pem)) ≡ ok k

  -- what `private_key` would do without a cache
  abbrev pub uncached_key : Config → Result K
  uncached_key c =
      if c.jwt_private_key_pem == ""
      then err runtime_error
      else loaded_key lib (lib.load_pem (codes c.jwt_private_key_pem))

  remembered-IsCache :
      (pem : String) (r : Result K) (cache : KeyCache K)
      → loaded_key lib (lib.load_pem (codes pem)) ≡ r
      → IsCache cache
      → ((remember lib pem r cache).0 ≡ r) × IsCache (remember lib pem r cache).1
  remembered-IsCache pem (err e) cache h v = (refl, v)
  remembered-IsCache pem (ok k) cache h v = (
    refl,
    λ p j found. elim (Bool-cases (p == pem)) [
      | inl same ↦
          let here : some k ≡ some j =
            sym (member-set_member pem p k cache ∙ rw same refl) ∙ found in
          let e : p ≡ pem = (string_eq.beq_iff p pem).0 same in
          ap (λ (q : String). loaded_key lib (lib.load_pem (codes q))) e ∙ h ∙ cc
      | inr other ↦ v p j (sym (member-set_member pem p k cache ∙ rw other refl) ∙ found)
    ],
  )

  -- With a cache that holds loaded keys only, `private_key` returns or raises what it would without the
  -- cache, and such a cache is left.
  pub private_key-uncached :
      (c : Config) (cache : KeyCache K)
      → IsCache cache
      → ((private_key lib c cache).0 ≡ uncached_key c) × IsCache (private_key lib c cache).1
  unfolding private_key
  private_key-uncached c cache v = elim (Bool-cases (c.jwt_private_key_pem == "")) [
    | inl unset ↦ rw unset (refl, v)
    | inr set ↦ elim (Option-cases (member c.jwt_private_key_pem cache)) [
      | inr (k, found) ↦ rw (set, found) (sym (v c.jwt_private_key_pem k found), v)
      | inl absent ↦ rw (set, absent) (remembered-IsCache c.jwt_private_key_pem _ cache refl v)
    ]
  ]

  signer_uncached :
      (c : Config) (k : K)
      → is_blank (strip (codes c.jwt_private_key_pem)) ≡ false
      → lib.load_pem (codes c.jwt_private_key_pem) ≡ some (rsa_key k)
      → uncached_key c ≡ ok k
  unfolding strip
  signer_uncached c k set loads = elim (Bool-cases (c.jwt_private_key_pem == "")) [
    | inl unset ↦ absurd (
        let empty : c.jwt_private_key_pem ≡ "" =
          (string_eq.beq_iff c.jwt_private_key_pem "").0 unset in
        let clash : true ≡ false =
          sym (ap (λ (s : String). is_blank (strip (codes s))) empty) ∙ set in
        cc)
    | inr filled ↦ rw (filled, loads) refl
  ]

  jwks_of_key :
      {P : Type 0} (rsa : RsaLibrary K P) (c : Config) (cache : KeyCache K) (k : K)
      → (private_key lib c cache).0 ≡ ok k
      → (jwks lib rsa c cache).0 ≡ ok (labelled lib rsa c (rsa.to_jwk (rsa.public_of k)) ∷ [])
  unfolding jwks public_jwk public_key
  jwks_of_key rsa c cache k e = rw e refl

  -- A production configuration that passes the checks publishes its key, if the loader of PEM texts
  -- ignores the white space around the key: the response has one JWK, the one of the public key of the
  -- loaded key, with the configured key id, for RS256 signatures.
  pub jwks_published :
      {P : Type 0} (rsa : RsaLibrary K P) (c : Config) (cache : KeyCache K) {c' : Config}
      → is_prod c ≡ true
      → prod_checks lib c ≡ ok c'
      → lib.load_pem (codes c.jwt_private_key_pem)
        ≡ lib.load_pem (strip (codes c.jwt_private_key_pem))
      → IsCache cache
      → (key : K) × (lib.load_pem (codes c.jwt_private_key_pem) ≡ some (rsa_key key))
        × (jwk : List (String × String)) × ((jwks lib rsa c cache).0 ≡ ok (jwk ∷ []))
        × (member "kid" jwk ≡ some c.jwt_kid)
        × (member "use" jwk ≡ some "sig")
        × (member "alg" jwk ≡ some jwt_algorithm)
        × ((name : String)
            → name ≢ "kid"
            → name ≢ "use"
            → name ≢ "alg"
            → member name jwk ≡ member name (rsa.to_jwk (rsa.public_of key)))
  jwks_published rsa c cache {c'} prod e trims v =
      let ready = prod_checks-IsProdReady lib c {c' = c'} prod e in
      let loads : lib.load_pem (codes c.jwt_private_key_pem) ≡ some (rsa_key ready.signer) =
        trims ∙ ready.key in
      let shown = labels c.jwt_kid (rsa.to_jwk (rsa.public_of ready.signer)) in
      let signs : (private_key lib c cache).0 ≡ ok ready.signer =
        (private_key-uncached c cache v).0 ∙ signer_uncached c ready.signer ready.set loads in
      (
        ready.signer,
        loads,
        labelled lib rsa c (rsa.to_jwk (rsa.public_of ready.signer)),
        jwks_of_key rsa c cache ready.signer signs,
        shown.0,
        shown.1,
        shown.2,
        shown.3,
      )
