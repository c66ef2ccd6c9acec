-- ===== src/Api/Middleware/Laws.antt =====
-- What the middleware lets pass.
use torrust_tracker.Prelude.{
  true, ◌≡◌, ◌≢◌, refl, sym, Option, none, some, arith, Text, Bool-cases, inl, inr,
}
use torrust_tracker.Api.Middleware.{
  Response, Rejection, unhandled_rejection, unauthorized, token_not_valid, AccessTokens,
  authenticate, auth,
}

-- A request whose answer is not a rejection came with one of the tokens.
pub auth_ok :
    {E S : Type 0} (tokens : AccessTokens) (token : Option Text) (next : S → Response E × S) (s : S)
    (r : Response E)
    → ((e : Rejection E) → r ≢ unhandled_rejection e)
    → (auth tokens token next s).0 ≡ r
    → (t : Text) × (token ≡ some t)
      × (authenticate t tokens ≡ true)
      × (auth tokens token next s ≡ next s)
unfolding auth
auth_ok tokens none next s r other h = absurd (other unauthorized (sym h))
auth_ok tokens (some t) next s r other h = elim (Bool-cases (authenticate t tokens)) [
  | inl q ↦ (t, refl, q, ground arith)
  | inr q ↦ absurd (other token_not_valid (ground arith))
]
