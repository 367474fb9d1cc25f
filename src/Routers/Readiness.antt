-- ===== src/Routers/Readiness.antt =====
-- What the readiness probe of app/routers/health.py says of the database and of Redis.
use real_time_ai_chat_backen.Base.{
  ◌≡◌, refl, String, Bool, true, false, not, ◌&&◌, some, [], ◌∷◌, if◌then◌else◌, Bool-cases, inl,
  inr,
}
use real_time_ai_chat_backen.Config.{Settings}
use real_time_ai_chat_backen.Platform.{Platform}
use real_time_ai_chat_backen.Session.{Server, State, session_actions}
use real_time_ai_chat_backen.Routers.{Request, success, serve}
use real_time_ai_chat_backen.Routers.Health.{health_response, readiness}

abbrev pub word : Bool → String
word true = "ok"
word false = "error"

-- When both pools are there, the readiness probe answers with 200 and "ok" if a statement and a
-- ping both succeed, with 503 and "degraded" otherwise, and names in either case which of the two
-- has failed. It writes nothing.
pub readiness_lem :
    (platform : Platform) (settings : Settings) (server : Server) (request : Request) (pings : Bool)
    (s : State)
    → let (response, s') =
        serve platform true request (readiness platform settings server (some pings)) s in
      let works = not (server.fault_at s.tick) in
      (response.status ≡ (if works && pings then 200 else 503))
      × (response.body
          ≡ success (
              health_response platform settings
                (if works && pings then "ok" else "degraded")
                (("database", word works) ∷ ("redis", word pings) ∷ [])))
      × (s'.committed ≡ server.others_at s.tick s.committed s.pending)
unfolding serve readiness session_actions
readiness_lem platform settings server request true s = elim (Bool-cases (server.fault_at s.tick)) [
  | inl fails ↦ simp fails (refl, refl, refl)
  | inr works ↦ simp works (refl, refl, refl)
]
readiness_lem platform settings server request false s =
    elim (Bool-cases (server.fault_at s.tick)) [
      | inl fails ↦ simp fails (refl, refl, refl)
      | inr works ↦ simp works (refl, refl, refl)
    ]
