-- ===== src/Server/Alone.antt =====
-- The server of cmd/forwardlimit/main.go with one limiter, and one client alone.
use forwardlimit.Common.{
  ℕ, zero, suc, ◌-◌, ◌<◌, ◌≡◌, ◌∙◌, refl, sym, subst, ap, List, [], ◌∷◌, All, map, if◌then◌else◌,
  leb,
}
use forwardlimit.Common.Int.{ℤ, pos, two_63}
use forwardlimit.Common.Text.{Text, text_eq_refl}
use forwardlimit.Common.Assoc.{lookup}
use forwardlimit.Store.{sanitize_bucket}
use forwardlimit.Store.Redis.Laws.{Laws}
use forwardlimit.Store.Redis.Connect.{Connection}
use forwardlimit.Limiter.{Limiter}
use forwardlimit.Httpapi.{Response, HttpRequest}
use forwardlimit.Httpapi.Reading.{read_body}
use forwardlimit.Httpapi.Check.{subject, or_default}
use forwardlimit.Httpapi.Answers.{IsFinal}
use forwardlimit.Config.Build.{Built}
use forwardlimit.Settings.{Settings}
use forwardlimit.Server.{Platform}
use forwardlimit.Server.Assembly.{chain}
use forwardlimit.Server.Run.{handler_of}
use forwardlimit.Server.Outage.{statuses}
use forwardlimit.Server.Metering.{bump}
use forwardlimit.Server.Enforced.{Counts, key_of, answers}
use forwardlimit.Server.Service.{Reaches, Fresh, statuses-chain}

abbrev repeat {ℓ} : {A : Type ℓ} → ℕ → A → List A
repeat zero r = []
repeat (suc n) r = r ∷ repeat n r

-- Whether the request after `n` others is over the limit.
abbrev answers_after : ℕ → Response → ℕ → ℕ → List ℤ
answers_after limit resp zero n = []
answers_after limit resp (suc more) n =
    (if leb limit n then resp.status else pos 200) ∷ answers_after limit resp more (suc n)

answers-repeat :
    (limit : ℕ) (resp : Response) (count : Text → ℕ) (b : Text) (more n : ℕ)
    → count b ≡ n
    → answers limit resp count (repeat more b) ≡ answers_after limit resp more n
answers-repeat limit resp count b zero n e = refl
answers-repeat limit resp count b (suc more) n e =
    let here = ap (λ m. if leb limit m then resp.status else pos 200) e in
    let one_more : bump b count b ≡ suc n = rw (text_eq_refl (sanitize_bucket b)) (ap suc e) in
    ap (λ s. s ∷ answers limit resp (bump b count) (repeat more b)) here
    ∙ ap (λ ss. (if leb limit n then resp.status else pos 200) ∷ ss)
        (answers-repeat limit resp (bump b count) b more (suc n) one_more)

map-repeat {ℓ κ} :
    {A : Type ℓ} {B : Type κ} (f : A → B) (x : A) (n : ℕ) → map f (repeat n x) ≡ repeat n (f x)
map-repeat f x zero = refl
map-repeat f x (suc n) = ap (λ l. f x ∷ l) (map-repeat f x n)

All-repeat {ℓ κ} : {A : Type ℓ} (P : A → Type κ) (x : A) (n : ℕ) → P x → All P (repeat n x)
All-repeat P x zero h = tt
All-repeat P x (suc n) h = (h, All-repeat P x n h)

-- Of the requests that one client sends, exactly the first `limit` are answered with 200.
statuses-repeat :
    {F W P C : Type 0} (p : Platform F W P C) (laws : Laws p.redis) (reaches : Reaches p laws)
    (c : Settings) (conn : Connection P C) (b : Built) (l : Limiter) (r : HttpRequest)
    (bucket : Text) (limit more : ℕ) (w : W)
    → b.limiters ≡ l ∷ []
    → l.rule.limit ≡ pos limit
    → limit < two_63 - 1
    → Fresh p laws reaches conn (key_of l bucket) w
    → let h = handler_of p c b (chain p c conn) in
      Counts l (subject h r (read_body h.max_body r.body).0) bucket
      → IsFinal h (or_default (lookup l.name h.responses) h.response)
      → statuses h (repeat more r) [] ((chain p c conn).start w)
        ≡ answers_after limit (or_default (lookup l.name h.responses) h.response) more 0
statuses-repeat p laws reaches c conn b l r bucket limit more w alone limit_is fits fresh counts
      final =
    let h = handler_of p c b (chain p c conn) in
    let resp = or_default (lookup l.name h.responses) h.response in
    let InPlay = λ (x : Text). x ≡ bucket in
    let rs = repeat more (r, bucket) in
    let whole =
      statuses-chain p laws reaches c conn b l InPlay rs limit w alone counts.valid limit_is fits
        (λ x e. subst (λ y. Fresh p laws reaches conn (key_of l y) w) (sym e) fresh) final
        (All-repeat _ (r, bucket) more (counts, refl)) in
    ap (λ q. statuses h q [] ((chain p c conn).start w))
      (sym (map-repeat (λ (x : HttpRequest × Text). x.0) (r, bucket) more))
    ∙ whole
    ∙ ap (answers limit resp (λ x. 0))
        (map-repeat (λ (x : HttpRequest × Text). x.1) (r, bucket) more)
    ∙ answers-repeat limit resp (λ x. 0) bucket more 0 refl
