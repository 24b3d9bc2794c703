-- ===== src/Mcp/Uses.antt =====
-- What becomes of one token of src/mcp/auth.ts while others are granted, verified, revoked and swept.
use nano_symphony.Common.{
  ℕ, String, ◌≡◌, refl, sym, ap, ◌∙◌, subst, ◌⊎◌, inl, inr, Bool, true, false, not, Option, none,
  some, List, [], ◌∷◌, arith, ◌==◌, eq_iff, ltb, leb, Bool-cases, Option-cases, All,
}
use nano_symphony.Mcp.Auth.{
  TokenEntry, TokenStore, Grant, put_entry, unless_expired, set_token_ttl, issue_token,
  verify_token, revoke_token, sweep,
}

-- what happens to the tokens between two requests
pub data Use : Type 0 where
  ttl_set : ℕ → Use
  granted : String → ℕ → Grant → Use
  verified : String → ℕ → Use
  revoked : String → Use
  swept : ℕ → Use

unfoldable pub apply : Use → TokenStore → TokenStore
apply (ttl_set ms) s = set_token_ttl ms s
apply (granted token now g) s = issue_token token now g s
apply (verified token now) s = (verify_token token now s).1
apply (revoked token) s = revoke_token token s
apply (swept now) s = sweep now s

unfoldable pub apply_all : List Use → TokenStore → TokenStore
unfolding apply
apply_all [] s = s
apply_all (u ∷ us) s = apply_all us (apply u s)

-- The token is not granted anew.
abbrev pub spares : String → Use → Bool
spares token (granted t now g) = not (t == token)
spares token _ = true

-- The token is neither granted nor revoked, and it has not expired.
abbrev pub keeps : String → ℕ → Use → Bool
keeps token until (granted t now g) = not (t == token)
keeps token until (verified t now) = leb now until
keeps token until (revoked t) = not (t == token)
keeps token until (swept now) = leb now until
keeps token until (ttl_set ms) = true

-- the entry of a token that was granted once
unfoldable pub Only : TokenEntry → Option TokenEntry → Type 0
Only e o = (o ≡ none) ⊎ (o ≡ some e)

pub not-true : (b : Bool) → not b ≡ true → b ≡ false
not-true true h = cc
not-true false h = refl

module _ (token : String) where
  put_entry-other :
      (t : String) (o : Option TokenEntry) (s : TokenStore)
      → (t == token) ≡ false
      → (put_entry t o s).entries token ≡ s.entries token
  put_entry-other t o s h = rw h refl

  put_entry-none :
      (e : TokenEntry) (t : String) (s : TokenStore)
      → Only e (s.entries token)
      → Only e ((put_entry t none s).entries token)
  unfolding Only
  put_entry-none e t s h = elim (Bool-cases (t == token)) [
    | inl a ↦ rw a (inl refl)
    | inr a ↦ rw a h
  ]

  verify-Only :
      (e : TokenEntry) (t : String) (now : ℕ) (s : TokenStore)
      → Only e (s.entries token)
      → Only e ((verify_token t now s).1.entries token)
  unfolding verify_token
  verify-Only e t now s h = elim (Option-cases (s.entries t)) [
    | inl n ↦ rw (verify_token, n) h
    | inr (x, f) ↦ elim (Bool-cases (ltb x.expires_at now)) [
      | inl a ↦ rw (verify_token, f, a) (put_entry-none e t s h)
      | inr a ↦ rw (verify_token, f, a) h
    ]
  ]

  sweep-Only :
      (e : TokenEntry) (now : ℕ) (o : Option TokenEntry) → Only e o → Only e (unless_expired now o)
  unfolding Only
  sweep-Only e now none h = inl refl
  sweep-Only e now (some x) h = elim (Bool-cases (ltb x.expires_at now)) [
    | inl a ↦ rw a (inl refl)
    | inr a ↦ rw a h
  ]

  apply-Only :
      (e : TokenEntry) (u : Use) (s : TokenStore)
      → spares token u ≡ true
      → Only e (s.entries token)
      → Only e ((apply u s).entries token)
  unfolding apply set_token_ttl issue_token revoke_token sweep
  apply-Only e (ttl_set ms) s k h = h
  apply-Only e (granted t now g) s k h =
      subst (Only e) (sym (put_entry-other t _ s (not-true (t == token) k))) h
  apply-Only e (verified t now) s k h = verify-Only e t now s h
  apply-Only e (revoked t) s k h = put_entry-none e t s h
  apply-Only e (swept now) s k h = sweep-Only e now (s.entries token) h

  pub apply_all-Only :
      (e : TokenEntry) (us : List Use) (s : TokenStore)
      → All (λ u. spares token u ≡ true) us
      → Only e (s.entries token)
      → Only e ((apply_all us s).entries token)
  unfolding apply_all
  apply_all-Only e [] s k h = h
  apply_all-Only e (u ∷ us) s k h = apply_all-Only e us (apply u s) k.1 (apply-Only e u s k.0 h)

pub in_time : (m n : ℕ) → leb n m ≡ true → ltb m n ≡ false
in_time m n h = ground arith

entry_or : TokenEntry → Option TokenEntry → TokenEntry
entry_or e none = e
entry_or e (some x) = x

module _ (token : String) (e : TokenEntry) where
  not_expired :
      (x : TokenEntry) (now : ℕ)
      → some x ≡ some e
      → ltb x.expires_at now ≡ true
      → ltb e.expires_at now ≡ false
      → ⊥
  unfolding entry_or
  not_expired x now own a b =
      true_false (sym (ap (λ y. ltb (entry_or e y).expires_at now) own ∙ b) ∙ a)
    where
      true_false : false ≡ true → ⊥
      true_false h = cc

  stays :
      (t : String) (o : Option TokenEntry) (s : TokenStore)
      → not (t == token) ≡ true
      → s.entries token ≡ some e
      → (put_entry t o s).entries token ≡ some e
  stays t o s k h = put_entry-other token t o s (not-true (t == token) k) ∙ h

  verify-keeps :
      (t : String) (now : ℕ) (s : TokenStore)
      → leb now e.expires_at ≡ true
      → s.entries token ≡ some e
      → (verify_token t now s).1.entries token ≡ some e
  unfolding verify_token
  verify-keeps t now s k h = elim (Option-cases (s.entries t)) [
    | inl n ↦ rw (verify_token, n) h
    | inr (x, f) ↦ elim (Bool-cases (ltb x.expires_at now)) [
      | inl a ↦ elim (Bool-cases (t == token)) [
        | inl same ↦
            let own : some x ≡ some e = sym f ∙ ap s.entries ((eq_iff t token).0 same) ∙ h in
            absurd (not_expired x now own a (in_time e.expires_at now k))
        | inr other ↦ rw (verify_token, f, a) (put_entry-other token t none s other ∙ h)
      ]
      | inr a ↦ rw (verify_token, f, a) h
    ]
  ]

  apply-keeps :
      (u : Use) (s : TokenStore)
      → keeps token e.expires_at u ≡ true
      → s.entries token ≡ some e
      → (apply u s).entries token ≡ some e
  unfolding apply set_token_ttl issue_token revoke_token sweep verify_token
  apply-keeps (ttl_set ms) s k h = h
  apply-keeps (granted t now g) s k h = stays t _ s k h
  apply-keeps (verified t now) s k h = verify-keeps t now s k h
  apply-keeps (revoked t) s k h = stays t none s k h
  apply-keeps (swept now) s k h = rw h (rw (in_time e.expires_at now k) refl)

  pub apply_all-keeps :
      (us : List Use) (s : TokenStore)
      → All (λ u. keeps token e.expires_at u ≡ true) us
      → s.entries token ≡ some e
      → (apply_all us s).entries token ≡ some e
  unfolding apply_all
  apply_all-keeps [] s k h = h
  apply_all-keeps (u ∷ us) s k h = apply_all-keeps us (apply u s) k.1 (apply-keeps u s k.0 h)
