-- ===== src/Router/Server/Replies.antt =====
-- How the HTTP handlers answer, where they leave the pool as it is.
use myx_im.Base.{
  ◌≡◌, refl, sym, subst, String, Bool, true, false, Option, none, some, if◌then◌else◌,
}
use myx_im.Db.{Db}
use myx_im.Db.Keeps.{Keeps}
use myx_im.Db.Statement.{Dao}
use myx_im.Jwt.{Claims}
use myx_im.Router.App.{AppState}
use myx_im.Router.Http.{Handler, respond, with_claims}
use myx_im.Router.Server.Keeps.{KeepsReply, query-KeepsReply}

module _ (P : Db → Type 0) where
  -- A handler that leaves the pool alone.
  pub quiet_reply :
      {A : Type 0} {h : AppState → A × AppState}
      → ((s : AppState) → (h s).1.pool ≡ s.pool)
      → KeepsReply P h
  quiet_reply e = record { keeps = λ s v. subst (λ p. P p.db) (sym (e s)) v }

  pub with_claims-Keeps :
      {T : Type 0} (c : Option Claims) {h : Claims → Handler T}
      → ((d : Claims) → KeepsReply P (h d))
      → KeepsReply P (with_claims c h)
  with_claims-Keeps none k = quiet_reply (λ s. refl)
  with_claims-Keeps (some c) k = k c

  pub respond-Keeps :
      {T : Type 0} (m : Dao T) (msg failure : String)
      → Keeps P m
      → KeepsReply P (respond m msg failure)
  respond-Keeps m msg failure k =
      query-KeepsReply P m k (λ items. quiet_reply (λ s. refl)) (λ e. quiet_reply (λ s. refl))

  pub if-Keeps :
      {A : Type 0} (b : Bool) {h g : AppState → A × AppState}
      → KeepsReply P h
      → KeepsReply P g
      → KeepsReply P (if b then h else g)
  if-Keeps true h g = h
  if-Keeps false h g = g
