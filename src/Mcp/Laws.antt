-- ===== src/Mcp/Laws.antt =====
-- Whom a token of src/mcp/auth.ts speaks for at the router of src/mcp/server.ts.
use text.Mathlib.Text.{starts_with}
use nano_symphony.Common.{
  ℕ, suc, ◌+◌, ◌≤◌, String, ◌≡◌, refl, sym, ap, ◌∙◌, subst, inl, inr, true, false, Option, none,
  some, List, [], arith, ◌==◌, eq_refl, ltb, Bool-cases, Option-cases, get_or, one_of, All,
}
use nano_symphony.Json.{Json}
use nano_symphony.Mcp.Auth.{
  TokenEntry, TokenStore, Grant, entry_of, issue_token, verify_token, revoke_token,
  agent_tool_scope,
}
use nano_symphony.Mcp.Server.{Body, ToolCall, Answer, call_tool, answer_request, post}
use nano_symphony.Mcp.Uses.{Use, spares, keeps, apply_all, Only, apply_all-Only, apply_all-keeps}

-- An answer runs a tool only for the issue and attempt of the entry, in its scope and before it expires.
IsGranted : TokenEntry → ℕ → Answer → Type 0
IsGranted e now (Answer.runs id c) =
    (c.issue_uuid ≡ e.issue_uuid)
    × (c.attempt ≡ e.attempt)
    × (one_of c.name e.scope ≡ true)
    × (now ≤ e.expires_at)
IsGranted e now _ = Unit

IsGranted-call_tool :
    (e : TokenEntry) (now : ℕ) (body : Body)
    → now ≤ e.expires_at
    → IsGranted e now (call_tool e body)
unfolding call_tool IsGranted
IsGranted-call_tool e now body le = elim (Option-cases body.name) [
  | inl n ↦ rw (call_tool, n) tt
  | inr (name, f) ↦ elim (Bool-cases (name == "")) [
    | inl a ↦ rw (call_tool, f, a) tt
    | inr a ↦ elim (Bool-cases (one_of name e.scope)) [
      | inl b ↦ rw (call_tool, f, a, b) (refl, refl, b, le)
      | inr b ↦ rw (call_tool, f, a, b) tt
    ]
  ]
]

IsGranted-answer_request :
    (version : String) (e : TokenEntry) (now : ℕ) (body : Body)
    → now ≤ e.expires_at
    → IsGranted e now (answer_request version e body)
unfolding answer_request IsGranted
IsGranted-answer_request version e now body le =
    elim (Bool-cases (starts_with body.method "notifications/")) [
      | inl a ↦ rw (answer_request, a) tt
      | inr a ↦ elim (Bool-cases (body.method == "initialize")) [
        | inl b ↦ rw (answer_request, a, b) tt
        | inr b ↦ elim (Bool-cases (body.method == "tools/list")) [
          | inl c ↦ rw (answer_request, a, b, c) tt
          | inr c ↦ elim (Bool-cases (body.method == "tools/call")) [
            | inl d ↦ rw (answer_request, a, b, c, d) (IsGranted-call_tool e now body le)
            | inr d ↦ rw (answer_request, a, b, c, d) tt
          ]
        ]
      ]
    ]

IsGranted-post :
    (version : String) (now : ℕ) (token : String) (body : Body) (e : TokenEntry) (s : TokenStore)
    → Only e (s.entries token)
    → IsGranted e now (post version now (some token) body s).0
unfolding post verify_token Only IsGranted
IsGranted-post version now token body e s h = elim (Bool-cases (token == "")) [
  | inl a ↦ rw (post, a) tt
  | inr a ↦ elim h [
    | inl n ↦ rw (post, a, verify_token, n) tt
    | inr f ↦ elim (Bool-cases (ltb e.expires_at now)) [
      | inl b ↦ rw (post, a, verify_token, f, b) tt
      | inr b ↦
          rw (post, a, verify_token, f, b)
            (IsGranted-answer_request version e now body (not_late e.expires_at now b))
    ]
  ]
]
  where
    not_late : (m n : ℕ) → ltb m n ≡ false → n ≤ m
    not_late m n b = ground arith

-- A token is granted for an attempt at an issue. Whatever is granted, verified, revoked and swept
-- afterwards, as long as the token is not granted anew: when a request with it runs a tool, then for
-- this issue and attempt, a tool of the granted scope, and not after the granted time.
pub post-runs :
    (version token : String) (now later : ℕ) (g : Grant) (s : TokenStore) (us : List Use)
    (body : Body) (id : Json) (call : ToolCall)
    → All (λ u. spares token u ≡ true) us
    → (post version later (some token) body (apply_all us (issue_token token now g s))).0
      ≡ Answer.runs id call
    → (call.issue_uuid ≡ g.issue_uuid)
      × (call.attempt ≡ g.attempt)
      × (one_of call.name (get_or g.scope agent_tool_scope) ≡ true)
      × (later ≤ now + get_or g.ttl_ms s.token_ttl)
unfolding issue_token IsGranted Only
post-runs version token now later g s us body id call others runs =
    let e = entry_of g now s.token_ttl in
    let here : (issue_token token now g s).entries token ≡ some e = rw (eq_refl token) refl in
    let only = apply_all-Only token e us (issue_token token now g s) others (inr here) in
    subst (IsGranted e later) runs
      (IsGranted-post version later token body e (apply_all us (issue_token token now g s)) only)

-- A token that was granted, and since then neither granted anew nor revoked, is verified as what it was
-- granted for until its time is over, whatever else is granted, verified, revoked and swept until then.
pub verify_token-issue_token :
    (token : String) (now later : ℕ) (g : Grant) (s : TokenStore) (us : List Use)
    → All (λ u. keeps token (now + get_or g.ttl_ms s.token_ttl) u ≡ true) us
    → later ≤ now + get_or g.ttl_ms s.token_ttl
    → (verify_token token later (apply_all us (issue_token token now g s))).0
      ≡ some (entry_of g now s.token_ttl)
unfolding issue_token verify_token
verify_token-issue_token token now later g s us kept le =
    let e = entry_of g now s.token_ttl in
    let here : (issue_token token now g s).entries token ≡ some e = rw (eq_refl token) refl in
    let still = apply_all-keeps token e us (issue_token token now g s) kept here in
    let fresh : ltb e.expires_at later ≡ false = ground (arith, le) in
    rw (verify_token, still, fresh) refl

abbrev some_entry : ℕ → TokenEntry
some_entry n = record { issue_uuid = ""; attempt = n; expires_at = 0; scope = [] }

abbrev attempt_or : Option TokenEntry → ℕ
attempt_or none = 2
attempt_or (some x) = x.attempt

-- An entry that could only be either of two is missing.
neither : (o : Option TokenEntry) → Only (some_entry 0) o → Only (some_entry 1) o → o ≡ none
unfolding Only
neither o (inl h) k = h
neither o (inr h) (inl k) = k
neither o (inr h) (inr k) = absurd (zero_one 0 (sym (ap attempt_or h) ∙ ap attempt_or k))
  where
    zero_one : (n : ℕ) → n ≡ suc n → ⊥
    zero_one n e = omega (arith, e)

-- A token that was revoked is refused from then on, whatever is granted, verified, revoked and swept
-- afterwards, as long as it is not granted anew.
pub verify_token-revoke_token :
    (token : String) (later : ℕ) (s : TokenStore) (us : List Use)
    → All (λ u. spares token u ≡ true) us
    → (verify_token token later (apply_all us (revoke_token token s))).0 ≡ none
unfolding revoke_token verify_token Only
verify_token-revoke_token token later s us others =
    let gone : (revoke_token token s).entries token ≡ none = rw (eq_refl token) refl in
    let only =
      λ (n : ℕ). apply_all-Only token (some_entry n) us (revoke_token token s) others (inl gone) in
    rw (verify_token, neither _ (only 0) (only 1)) refl
