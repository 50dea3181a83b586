-- ===== src/Engine/ControlPlane.antt =====
-- engine/control_plane/client.py: how an HTTP answer of the control plane is read. The session of
-- `requests` is not modelled; what it answers or raises is a value.
use cryptoaibot.Common.{
  String, ◌<>◌, ◌≡◌, ap, ◌↔◌, ◌<◌, ℕ, Bool, true, false, ◌||◌, Option, none, some, leb, ◌==◌, show,
  arith, if◌then◌else◌,
}
use cryptoaibot.Exec.{
  Result, ok, err, bind_result, bind_result-eq-ok, control_plane_rejected,
  control_plane_unavailable,
}
use cryptoaibot.Engine.Ids.{take_chars}
use cryptoaibot.Engine.Trading.Decisions.{Control}

-- The JSON object of an answer: a key that is missing or not a Boolean is `none`.
pub record Body : Type 0 where
  pub enabled : Option Bool
  pub emergency_stop : Option Bool
  pub reconciliation_ack_token : Option String

-- What a request comes to: an exception by the name of its type, or a status code, the text and the
-- object that it parses to.
pub data HttpAnswer : Type 0 where
  failed : String → HttpAnswer
  answered : ℕ → String → Option Body → HttpAnswer

unfoldable pub is_permanent : ℕ → Bool
is_permanent code = code == 400 || (code == 409 || code == 422)

abbrev parsed : String → Option Body → Result Body
parsed place none = err (control_plane_unavailable (place <> ": invalid JSON"))
parsed place (some body) = ok body

-- `_send`, of a method and a path
unfoldable pub send : String → String → HttpAnswer → Result Body
send method path (failed name) =
    err (control_plane_unavailable (method <> " " <> path <> ": " <> name))
send method path (answered code text body) =
    if is_permanent code
    then err (
        control_plane_rejected
          (method <> " " <> path <> ": HTTP " <> show code <> ": " <> take_chars 300 text))
    else if leb 400 code
    then err (control_plane_unavailable (method <> " " <> path <> ": HTTP " <> show code))
    else parsed (method <> " " <> path) body

abbrev checked : Option Bool → Option Bool → Option String → Result Control
checked (some enabled) (some stop) ack =
    ok (record { enabled = enabled; emergency_stop = stop; reconciliation_ack_token = ack })
checked _ _ ack =
    err (control_plane_unavailable "control response missing enabled/emergency_stop booleans")

-- `get_control`
unfoldable pub get_control : HttpAnswer → Result Control
get_control a =
    bind_result (send "GET" "control" a)
      (λ body. checked body.enabled body.emergency_stop body.reconciliation_ack_token)

-- `heartbeat` and `post`
unfoldable pub post : String → HttpAnswer → Result Body
post kind a = send "POST" kind a

abbrev is_rejected : Result Body → Bool
is_rejected (err (control_plane_rejected m)) = true
is_rejected _ = false

abbrev has_permanent_code : HttpAnswer → Bool
has_permanent_code (failed name) = false
has_permanent_code (answered code text body) = is_permanent code

checked_lem :
    (e s : Option Bool) (ack : Option String) (c : Control)
    → (checked e s ack ≡ ok c)
      ↔ ((e ≡ some c.enabled) × (s ≡ some c.emergency_stop) × (ack ≡ c.reconciliation_ack_token))
checked_lem e s ack c = ground arith

send_ok :
    (method path : String) (code : ℕ) (text : String) (body : Option Body) (b : Body)
    → send method path (answered code text body) ≡ ok b
    → (code < 400) × (body ≡ some b)
unfolding send
send_ok method path code text none b h = ground (arith, h)
send_ok method path code text (some body) b h = ground (arith, h)

-- `get_control` returns a control state only for an answer below HTTP 400 that parses and holds both
-- Booleans, and it is what that answer says; anything else raises.
pub get_control_lem :
    (a : HttpAnswer) (c : Control)
    → get_control a ≡ ok c
    → (code : ℕ) × (text : String) × (body : Body) × (a ≡ answered code text (some body))
      × (code < 400)
      × (body.enabled ≡ some c.enabled)
      × (body.emergency_stop ≡ some c.emergency_stop)
      × (body.reconciliation_ack_token ≡ c.reconciliation_ack_token)
unfolding get_control send
get_control_lem (failed name) c h = cc h
get_control_lem (answered code text body) c h =
    let (b, sent, read) = bind_result-eq-ok (send "GET" "control" (answered code text body)) _ h in
    let (below, parses) = send_ok "GET" "control" code text body b sent in
    let (enabled, stop, ack) =
      (checked_lem b.enabled b.emergency_stop b.reconciliation_ack_token c).0 read in
    (code, text, b, ap (answered code text) parses, below, enabled, stop, ack)

-- A request is refused for good exactly on the codes 400, 409 and 422.
pub send_permanent_iff :
    (method path : String) (a : HttpAnswer)
    → (is_rejected (send method path a) ≡ true) ↔ (has_permanent_code a ≡ true)
unfolding send is_permanent
send_permanent_iff method path (failed name) = ground arith
send_permanent_iff method path (answered code text none) = ground arith
send_permanent_iff method path (answered code text (some body)) = ground arith
