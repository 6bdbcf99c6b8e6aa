-- ===== src/Auth/Concurrent/Invariant.antt =====
-- What holds in every state of a concurrent run: no row is written by two open transactions, a row
-- that is claimed stays active until its commit, and a row that was exchanged is never active again.
use blog_be.Prelude.{
  ◌⊎◌, ℕ, String, ◌≡◌, ◌≢◌, refl, ◌∙◌, sym, Bool, true, false, Option, none, some, List, ◌==◌,
  nat_eq, string_eq, Bool-cases, inl, inr, arith,
}
use blog_be.Prelude.Table.{has, has-update}
use blog_be.Auth.Repository.{Accounts, RefreshToken, rotated, refresh_status_eq, token_key, mark}
use blog_be.Auth.Concurrent.{
  Attempt, Pc, ready, leaving, checked, claimed, recorded, won, lost, reused, bumped, swept, killed,
  refused, locks, System, set_pc, Free, commit_exchange, commit_kill,
}
use blog_be.Auth.Concurrent.Rows.{
  is_active, is_spent, has_of_spent, has_of_active, active-rotate_ne, spent-rotate, rotate-spent,
  active-sweep, spent-sweep, has-sweep,
}

-- what the table must hold for a request that stands at `p`
abbrev pub Fits : List RefreshToken → Pc → Type 0
Fits rows (ready a) = Unit
Fits rows leaving = Unit
Fits rows (checked a) = Unit
Fits rows (claimed a) = is_active a.jti rows ≡ true
Fits rows (recorded a) = (is_active a.jti rows ≡ true) × (has token_key a.new_jti rows ≡ false)
Fits rows (won a) = is_spent a.jti rows ≡ true
Fits rows (lost a) = Unit
Fits rows (reused a) = Unit
Fits rows bumped = Unit
Fits rows (swept chosen) = Unit
Fits rows killed = Unit
Fits rows refused = Unit

-- the row that a request has exchanged
abbrev pub exchanged_by : Pc → Option String
exchanged_by (won a) = some a.jti
exchanged_by _ = none

pub record Inv (s : System) : Type 0 where
  pub fits : (i : ℕ) → Fits s.db.refresh_tokens (s.pc i)
  pub apart : (i j : ℕ) (r : String) → i ≢ j → locks (s.pc i) r ≡ true → locks (s.pc j) r ≡ false
  pub once :
      (i j : ℕ) (r : String)
      → i ≢ j
      → exchanged_by (s.pc i) ≡ some r
      → exchanged_by (s.pc j) ≢ some r

pub at :
    (pc : ℕ → Pc) (i : ℕ) (p : Pc) (j : ℕ)
    → ((j ≡ i) × (set_pc pc i p j ≡ p)) ⊎ ((j ≢ i) × (set_pc pc i p j ≡ pc j))
at pc i p j = elim (Bool-cases (j == i)) [
  | inl t ↦ inl ((nat_eq.beq_iff j i).0 t, rw t refl)
  | inr f ↦ inr (λ e. ground (arith, nat_eq.beq_iff j i), rw f refl)
]

-- A step of `i` keeps the invariant if it fits, if it leaves the others fitting, if what it locks is
-- free, and if nobody else has exchanged what it exchanges.
module _ (s : System) (v : Inv s) (i : ℕ) (p : Pc) (d : Accounts) where
  pub keep :
      Fits d.refresh_tokens p
      → ((j : ℕ) → j ≢ i → Fits d.refresh_tokens (s.pc j))
      → ((r : String) → locks p r ≡ true → Free s i r)
      → ((r : String) → exchanged_by p ≡ some r → (j : ℕ) → j ≢ i → exchanged_by (s.pc j) ≢ some r)
      → Inv (record { db = d; pc = set_pc s.pc i p })
  keep own others free alone = record {
    fits = λ j. elim (at s.pc i p j) [ inl (_, e) ↦ rw e own | inr (ne, e) ↦ rw e (others j ne) ];
    apart = λ j k r ne held. elim (at s.pc i p j) [
      | inl (j_i, e) ↦ elim (at s.pc i p k) [
        | inl (k_i, _) ↦ absurd (ne (j_i ∙ sym k_i))
        | inr (k_ne, e') ↦ rw e' (free r (rw e at held) k k_ne)
      ]
      | inr (j_ne, e) ↦ elim (at s.pc i p k) [
        | inl (_, e') ↦ rw e' (elim (Bool-cases (locks p r)) [
          | inl mine ↦ absurd (
              let no : locks (s.pc j) r ≡ true = rw e at held in
              let yes_no : true ≡ false = sym no ∙ free r mine j j_ne in cc)
          | inr none_mine ↦ none_mine
        ])
        | inr (_, e') ↦ rw e' (v.apart j k r ne (rw e at held))
      ]
    ];
    once = λ j k r ne won_j won_k. elim (at s.pc i p j) [
      | inl (j_i, e) ↦ elim (at s.pc i p k) [
        | inl (k_i, _) ↦ absurd (ne (j_i ∙ sym k_i))
        | inr (k_ne, e') ↦ alone r (rw e at won_j) k k_ne (rw e' at won_k)
      ]
      | inr (j_ne, e) ↦ elim (at s.pc i p k) [
        | inl (_, e') ↦ alone r (rw e' at won_k) j j_ne (rw e at won_j)
        | inr (_, e') ↦ v.once j k r ne (rw e at won_j) (rw e' at won_k)
      ]
    ];
  }

module _ (s : System) (v : Inv s) (i : ℕ) where
  -- a step that writes nothing locks nothing that is not free, and exchanges nothing
  pub quiet :
      (p : Pc)
      → Fits s.db.refresh_tokens p
      → ((r : String) → locks p r ≡ true → Free s i r)
      → exchanged_by p ≡ none
      → Inv (record { db = s.db; pc = set_pc s.pc i p })
  quiet p own free nothing = keep s v i p s.db own (λ j _. v.fits j) free (λ r e. absurd (cc))

  -- what the request has written already is free for it
  pub held : (p : Pc) (r : String) → s.pc i ≡ p → locks p r ≡ true → Free s i r
  held p r e h j ne = v.apart i j r (λ same. ne (sym same)) (rw e h)

pub spent_of_exchanged :
    (rows : List RefreshToken) (p : Pc) (r : String)
    → Fits rows p
    → exchanged_by p ≡ some r
    → is_spent r rows ≡ true
spent_of_exchanged rows (won a) r h e = ground (arith, h)
spent_of_exchanged rows (ready a) r h e = absurd (cc)
spent_of_exchanged rows leaving r h e = absurd (cc)
spent_of_exchanged rows (checked a) r h e = absurd (cc)
spent_of_exchanged rows (claimed a) r h e = absurd (cc)
spent_of_exchanged rows (recorded a) r h e = absurd (cc)
spent_of_exchanged rows (lost a) r h e = absurd (cc)
spent_of_exchanged rows (reused a) r h e = absurd (cc)
spent_of_exchanged rows bumped r h e = absurd (cc)
spent_of_exchanged rows (swept chosen) r h e = absurd (cc)
spent_of_exchanged rows killed r h e = absurd (cc)
spent_of_exchanged rows refused r h e = absurd (cc)

-- The three facts about rows that a commit must keep for the others, where `mine` are the rows it
-- writes.
pub record Spares (mine : String → Bool) (rows rows' : List RefreshToken) : Type 0 where
  pub spared_active :
      (r : String) → mine r ≡ false → is_active r rows ≡ true → is_active r rows' ≡ true
  pub spared_spent : (r : String) → is_spent r rows ≡ true → is_spent r rows' ≡ true
  pub spared_absent :
      (r : String) → mine r ≡ false → has token_key r rows ≡ false → has token_key r rows' ≡ false

pub Spares-Fits :
    {mine : String → Bool} {rows rows' : List RefreshToken} (p : Pc)
    → Spares mine rows rows'
    → ((r : String) → locks p r ≡ true → mine r ≡ false)
    → Fits rows p
    → Fits rows' p
Spares-Fits (ready a) k apart h = tt
Spares-Fits leaving k apart h = tt
Spares-Fits (checked a) k apart h = tt
Spares-Fits (claimed a) k apart h =
    k.spared_active a.jti (apart a.jti (ground (arith, string_eq.beq_iff a.jti a.jti))) h
Spares-Fits (recorded a) k apart h = (
  k.spared_active a.jti (apart a.jti (ground (arith, string_eq.beq_iff a.jti a.jti))) h.0,
  k.spared_absent a.new_jti
      (apart a.new_jti (ground (arith, string_eq.beq_iff a.new_jti a.new_jti))) h.1,
)
Spares-Fits (won a) k apart h = k.spared_spent a.jti h
Spares-Fits (lost a) k apart h = tt
Spares-Fits (reused a) k apart h = tt
Spares-Fits bumped k apart h = tt
Spares-Fits (swept chosen) k apart h = tt
Spares-Fits killed k apart h = tt
Spares-Fits refused k apart h = tt

module _ (subject : String) (d : Accounts) where
  pub exchange-Spares :
      (a : Attempt)
      → has token_key a.new_jti d.refresh_tokens ≡ false
      → Spares (locks (recorded a)) d.refresh_tokens (commit_exchange subject a d).refresh_tokens
  unfolding commit_exchange
  exchange-Spares a absent = record {
    spared_active = λ r free h. ground (
      arith,
      active-rotate_ne a.jti r d.refresh_tokens,
      string_eq.beq_iff r a.jti,
      string_eq.beq_iff a.new_jti r,
      string_eq.beq_iff r a.new_jti,
    );
    spared_spent = λ r h. ground (
      arith,
      spent-rotate a.jti r d.refresh_tokens h,
      has_of_spent r d.refresh_tokens h,
      string_eq.beq_iff a.new_jti r,
    );
    spared_absent = λ r free h. ground (
      arith,
      has-update token_key a.jti (mark rotated) (λ t. refl) r d.refresh_tokens,
      string_eq.beq_iff r a.new_jti,
      string_eq.beq_iff a.new_jti r,
    );
  }

  pub exchange-spent :
      (a : Attempt)
      → Fits d.refresh_tokens (recorded a)
      → is_spent a.jti (commit_exchange subject a d).refresh_tokens ≡ true
  unfolding commit_exchange
  exchange-spent a h = ground (
    arith,
    rotate-spent a.jti d.refresh_tokens h.0,
    has_of_active a.jti d.refresh_tokens h.0,
    string_eq.beq_iff a.new_jti a.jti,
  )

  pub kill-Spares :
      (chosen : String → Bool)
      → Spares chosen d.refresh_tokens (commit_kill subject chosen d).refresh_tokens
  unfolding commit_kill
  kill-Spares chosen = record {
    spared_active = λ r free h. active-sweep subject chosen r d.refresh_tokens free h;
    spared_spent = λ r h. spent-sweep subject chosen r d.refresh_tokens h;
    spared_absent = λ r free h. has-sweep subject chosen r d.refresh_tokens ∙ h;
  }
