-- ===== src/Api/Router.antt =====
-- internal/api/router.go: which handler a request comes to. The paths are those that the multiplexer of
-- net/http passes on, which it has cleaned.
use yuzu_agent_webrtc_toy.Prelude.{◌&&◌, List, [], ◌∷◌, Option, none, some, ◌==◌, if◌then◌else◌}
use yuzu_agent_webrtc_toy.Text.{Str, codes, str_eq, is_empty}
use yuzu_agent_webrtc_toy.WorkerWs.{strip_prefix}

pub data Route : Type 0 where
  healthz create_route : Route
  start_route end_route events_route worker_token_route ws_creds_route : Str → Route
  debug_vad_route : Str → Str → Route
  not_found_route method_not_allowed_route : Route

-- `strings.Split(s, "/")`: the first part, and the others.
unfoldable pub split_slashes : Str → Str × List Str
split_slashes [] = ([], [])
split_slashes (c ∷ s) =
    let (part, parts) = split_slashes s in
    if c == b'/' then ([], part ∷ parts) else (c ∷ part, parts)

-- `strings.TrimSuffix(path, "/")`
unfoldable pub trim_slash : Str → Str
trim_slash [] = []
trim_slash (c ∷ s) = let rest = trim_slash s in if c == b'/' && is_empty s then [] else c ∷ rest

abbrev pub only : Str → Str → Route → Route
only expected method route = if str_eq method expected then route else method_not_allowed_route

-- "debug", with the parts behind it.
abbrev debug_action : Str → Str → List Str → Route
debug_action method id [] = not_found_route
debug_action method id (action ∷ rest) = only (codes "POST") method (
    if str_eq action (codes "vad-start")
    then debug_vad_route id (codes "vad_start")
    else if str_eq action (codes "vad-end")
    then debug_vad_route id (codes "vad_end")
    else not_found_route)

-- The switch on the second part; a missing one is the empty text.
unfoldable pub on_tail : Str → Str → List Str → Route
on_tail method id [] = not_found_route
on_tail method id (tail ∷ rest) =
    if str_eq tail (codes "start")
    then only (codes "POST") method (start_route id)
    else if str_eq tail (codes "end")
    then only (codes "POST") method (end_route id)
    else if str_eq tail (codes "events")
    then only (codes "GET") method (events_route id)
    else if str_eq tail (codes "worker-token")
    then only (codes "POST") method (worker_token_route id)
    else if str_eq tail (codes "ws-creds")
    then only (codes "POST") method (ws_creds_route id)
    else if str_eq tail (codes "debug")
    then debug_action method id rest
    else not_found_route

-- The handler of "/sessions/" on the path behind that prefix.
unfoldable pub on_rest : Str → Option Str → Route
on_rest method none = not_found_route
on_rest method (some rest) =
    let (id, parts) = split_slashes rest in
    if is_empty id then not_found_route else on_tail method id parts

-- `NewRouter`
unfoldable pub route : Str → Str → Route
route method path =
    if str_eq path (codes "/healthz")
    then healthz
    else if str_eq path (codes "/sessions")
    then only (codes "POST") method create_route
    else on_rest method (strip_prefix (codes "/sessions/") (trim_slash path))
