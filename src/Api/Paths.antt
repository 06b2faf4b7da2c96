-- ===== src/Api/Paths.antt =====
-- Which paths internal/api/router.go brings to the handlers of a session.
use yuzu_agent_webrtc_toy.Prelude.{
  ◌≡◌, refl, Bool, true, false, [], ◌∷◌, ◌++◌, arith, ◌==◌, if◌then◌else◌,
}
use yuzu_agent_webrtc_toy.Text.{Str, codes, str_eq, is_empty}
use yuzu_agent_webrtc_toy.WorkerWs.{strip_prefix}
use yuzu_agent_webrtc_toy.Api.Router.{
  Route, start_route, end_route, events_route, worker_token_route, ws_creds_route, debug_vad_route,
  method_not_allowed_route, split_slashes, trim_slash, on_tail, on_rest, route,
}

-- What the interface offers for a session, with its method, its path behind the session, and its
-- handler.
pub data Endpoint : Type 0 where
  starting ending listing worker_token ws_creds vad_start vad_end : Endpoint

abbrev pub method_of : Endpoint → Str
method_of starting = codes "POST"
method_of ending = codes "POST"
method_of listing = codes "GET"
method_of worker_token = codes "POST"
method_of ws_creds = codes "POST"
method_of vad_start = codes "POST"
method_of vad_end = codes "POST"

abbrev pub tail_of : Endpoint → Str
tail_of starting = codes "start"
tail_of ending = codes "end"
tail_of listing = codes "events"
tail_of worker_token = codes "worker-token"
tail_of ws_creds = codes "ws-creds"
tail_of vad_start = codes "debug/vad-start"
tail_of vad_end = codes "debug/vad-end"

abbrev pub target_of : Endpoint → Str → Route
target_of starting id = start_route id
target_of ending id = end_route id
target_of listing id = events_route id
target_of worker_token id = worker_token_route id
target_of ws_creds id = ws_creds_route id
target_of vad_start id = debug_vad_route id (codes "vad_start")
target_of vad_end id = debug_vad_route id (codes "vad_end")

-- The path of an endpoint for a session, with a slash behind it or not.
abbrev pub path_of : Endpoint → Str → Bool → Str
path_of e id false = codes "/sessions/" ++ (id ++ (codes "/" ++ tail_of e))
path_of e id true = codes "/sessions/" ++ (id ++ (codes "/" ++ (tail_of e ++ codes "/")))

-- A text without a slash.
abbrev pub HasNoSlash : Str → Type 0
HasNoSlash [] = Unit
HasNoSlash (c ∷ s) = ((c == b'/') ≡ false) × HasNoSlash s

is_empty-append_cons : (a : Str) (c : _) (s : Str) → is_empty (a ++ c ∷ s) ≡ false
is_empty-append_cons [] c s = refl
is_empty-append_cons (x ∷ a) c s = refl

trim_slash-append : (a : Str) (c : _) (s : Str) → trim_slash (a ++ c ∷ s) ≡ a ++ trim_slash (c ∷ s)
unfolding trim_slash
trim_slash-append [] c s = refl
trim_slash-append (x ∷ a) c s =
    rw (is_empty-append_cons a c s, trim_slash-append a c s) (ground arith)

split_slashes-HasNoSlash :
    (a s : Str)
    → HasNoSlash a
    → split_slashes (a ++ b'/' ∷ s) ≡ (a, (split_slashes s).0 ∷ (split_slashes s).1)
unfolding split_slashes
split_slashes-HasNoSlash [] s h = refl
split_slashes-HasNoSlash (c ∷ a) s (e, h) = rw (e, split_slashes-HasNoSlash a s h)

trim_slash-tail_of :
    (e : Endpoint)
    → (trim_slash (codes "/" ++ tail_of e) ≡ codes "/" ++ tail_of e)
      × (trim_slash (codes "/" ++ (tail_of e ++ codes "/")) ≡ codes "/" ++ tail_of e)
unfolding trim_slash
trim_slash-tail_of starting = (refl, refl)
trim_slash-tail_of ending = (refl, refl)
trim_slash-tail_of listing = (refl, refl)
trim_slash-tail_of worker_token = (refl, refl)
trim_slash-tail_of ws_creds = (refl, refl)
trim_slash-tail_of vad_start = (refl, refl)
trim_slash-tail_of vad_end = (refl, refl)

trim_slash-path_of :
    (e : Endpoint) (id : Str) (slash : Bool) → trim_slash (path_of e id slash) ≡ path_of e id false
trim_slash-path_of e id false =
    rw (trim_slash-append (codes "/sessions/" ++ id) b'/' (tail_of e), (trim_slash-tail_of e).0)
trim_slash-path_of e id true = rw (
  trim_slash-append (codes "/sessions/" ++ id) b'/' (tail_of e ++ codes "/"),
  (trim_slash-tail_of e).1,
)

on_tail-tail_of :
    (e : Endpoint) (method id : Str)
    → on_tail method id ((split_slashes (tail_of e)).0 ∷ (split_slashes (tail_of e)).1)
      ≡ (if str_eq method (method_of e) then target_of e id else method_not_allowed_route)
unfolding on_tail split_slashes str_eq
on_tail-tail_of starting method id = refl
on_tail-tail_of ending method id = refl
on_tail-tail_of listing method id = refl
on_tail-tail_of worker_token method id = refl
on_tail-tail_of ws_creds method id = refl
on_tail-tail_of vad_start method id = refl
on_tail-tail_of vad_end method id = refl

on_rest-path :
    (e : Endpoint) (method id : Str)
    → is_empty id ≡ false
    → HasNoSlash id
    → on_rest method (strip_prefix (codes "/sessions/") (path_of e id false))
      ≡ (if str_eq method (method_of e) then target_of e id else method_not_allowed_route)
unfolding on_rest strip_prefix
on_rest-path e method id ne h =
    rw (split_slashes-HasNoSlash id (tail_of e) h, ne) (on_tail-tail_of e method id)

-- Each path of the interface for a session whose identifier is not empty and has no slash in it, with
-- or without a slash at its end, comes to its handler with that identifier; with any other method it
-- is answered as not allowed.
pub route-path_of :
    (e : Endpoint) (method id : Str) (slash : Bool)
    → is_empty id ≡ false
    → HasNoSlash id
    → route method (path_of e id slash)
      ≡ (if str_eq method (method_of e) then target_of e id else method_not_allowed_route)
unfolding route str_eq
route-path_of e method id false ne h =
    rw (trim_slash-path_of e id false) (on_rest-path e method id ne h)
route-path_of e method id true ne h =
    rw (trim_slash-path_of e id true) (on_rest-path e method id ne h)
