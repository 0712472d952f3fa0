-- ===== src/Ipc/Method.antt =====
-- plugin/ctl/ipc/method: the methods that a packet can carry, with their numbers. `Options` stands for
-- Go's map[string]any, of which no code of the repository looks at a value here.
use proxygw.Prelude.{
  Bool, Dict, List, Text, [], bool_eq, false, if◌then◌else◌, leb, nat_eq, text_eq, ℕ, ◌%◌, ◌==◌,
  ◌∷◌,
}
use proxygw.Config.Protocol.{Protocol}

-- TargetEndpointInfo, TargetStatus and FrontendStatus.
pub record TargetEndpointInfo : Type 0 where
  pub name : Text
  pub protocol : Protocol
  pub address : Text

pub record TargetStatus : Type 0 where
  pub name : Text
  pub kind : Text
  pub state : Text
  pub last_error : Text
  pub endpoints : List TargetEndpointInfo

pub record FrontendStatus : Type 0 where
  pub name : Text
  pub kind : Text
  pub state : Text
  pub last_error : Text
  pub protocol : Protocol
  pub listen : Text
  pub target_name : Text
  pub endpoint_name : Text
  pub proxy_address : Text

pub record StatusResponse : Type 0 where
  pub closed : Bool
  pub targets : List TargetStatus
  pub frontends : List FrontendStatus

pub record NewFrontendRequest (Options : Type 0) : Type 0 where
  pub name : Text
  pub kind : Text
  pub protocol : Protocol
  pub listen : Text
  pub options : Options

-- The implementations of Method, with their fields.
pub data Body (Options : Type 0) : Type 0 where
  empty : Body Options
  error_response : Text → Body Options
  status_request : Body Options
  status_response : StatusResponse → Body Options
  plugin_init_request : Body Options
  plugin_init_response : List Text → List Text → Body Options
  new_target_request : Text → Text → Options → Body Options
  new_target_response : Body Options
  warm_target_request : Text → Body Options
  warm_target_response : Body Options
  drain_target_request : Text → Body Options
  drain_target_response : Body Options
  close_target_request : Text → Body Options
  close_target_response : Body Options
  new_frontend_request : NewFrontendRequest Options → Body Options
  new_frontend_response : Body Options
  start_frontend_request : Text → Body Options
  start_frontend_response : Body Options
  stop_frontend_request : Text → Body Options
  stop_frontend_response : Body Options
  close_frontend_request : Text → Body Options
  close_frontend_response : Body Options
  frontend_should_warm_notification : Text → Body Options

abbrev pub method_empty : ℕ
method_empty = 0

abbrev pub method_error_response : ℕ
method_error_response = 1

abbrev pub method_status_request : ℕ
method_status_request = 2

abbrev pub method_status_response : ℕ
method_status_response = 3

abbrev pub method_plugin_init_request : ℕ
method_plugin_init_request = 4

abbrev pub method_plugin_init_response : ℕ
method_plugin_init_response = 5

abbrev pub method_new_target_request : ℕ
method_new_target_request = 6

abbrev pub method_new_target_response : ℕ
method_new_target_response = 7

abbrev pub method_warm_target_request : ℕ
method_warm_target_request = 8

abbrev pub method_warm_target_response : ℕ
method_warm_target_response = 9

abbrev pub method_drain_target_request : ℕ
method_drain_target_request = 10

abbrev pub method_drain_target_response : ℕ
method_drain_target_response = 11

abbrev pub method_close_target_request : ℕ
method_close_target_request = 12

abbrev pub method_close_target_response : ℕ
method_close_target_response = 13

abbrev pub method_new_frontend_request : ℕ
method_new_frontend_request = 14

abbrev pub method_new_frontend_response : ℕ
method_new_frontend_response = 15

abbrev pub method_start_frontend_request : ℕ
method_start_frontend_request = 16

abbrev pub method_start_frontend_response : ℕ
method_start_frontend_response = 17

abbrev pub method_stop_frontend_request : ℕ
method_stop_frontend_request = 18

abbrev pub method_stop_frontend_response : ℕ
method_stop_frontend_response = 19

abbrev pub method_close_frontend_request : ℕ
method_close_frontend_request = 20

abbrev pub method_close_frontend_response : ℕ
method_close_frontend_response = 21

abbrev pub method_frontend_should_warm_notification : ℕ
method_frontend_should_warm_notification = 32768

-- IsResponse
unfoldable pub is_response : ℕ → Bool
is_response m = if leb 32768 m then false else m % 2 == 1

abbrev pub zero_status : StatusResponse
zero_status = record { closed = false; targets = []; frontends = [] }

abbrev zero_frontend : {Options : Type 0} → Options → NewFrontendRequest Options
zero_frontend none_given = record {
  name = [];
  kind = [];
  protocol = 0;
  listen = [];
  options = none_given;
}

module _ {Options : Type 0} where
  -- The method called Method.
  unfoldable pub method : Body Options → ℕ
  method empty = method_empty
  method (error_response a) = method_error_response
  method status_request = method_status_request
  method (status_response a) = method_status_response
  method plugin_init_request = method_plugin_init_request
  method (plugin_init_response a b) = method_plugin_init_response
  method (new_target_request a b c) = method_new_target_request
  method new_target_response = method_new_target_response
  method (warm_target_request a) = method_warm_target_request
  method warm_target_response = method_warm_target_response
  method (drain_target_request a) = method_drain_target_request
  method drain_target_response = method_drain_target_response
  method (close_target_request a) = method_close_target_request
  method close_target_response = method_close_target_response
  method (new_frontend_request a) = method_new_frontend_request
  method new_frontend_response = method_new_frontend_response
  method (start_frontend_request a) = method_start_frontend_request
  method start_frontend_response = method_start_frontend_response
  method (stop_frontend_request a) = method_stop_frontend_request
  method stop_frontend_response = method_stop_frontend_response
  method (close_frontend_request a) = method_close_frontend_request
  method close_frontend_response = method_close_frontend_response
  method (frontend_should_warm_notification a) = method_frontend_should_warm_notification

  -- The switch of ParseRawBody: which value each method's bytes are read into. Empty, whose bytes are
  -- not read, is apart.
  unfoldable pub zero_bodies : Options → Dict ℕ (Body Options)
  zero_bodies no_options =
      (method_error_response, error_response [])
      ∷ (method_status_request, status_request)
      ∷ (method_status_response, status_response zero_status)
      ∷ (method_plugin_init_request, plugin_init_request)
      ∷ (method_plugin_init_response, plugin_init_response [] [])
      ∷ (method_new_target_request, new_target_request [] [] no_options)
      ∷ (method_new_target_response, new_target_response)
      ∷ (method_warm_target_request, warm_target_request [])
      ∷ (method_warm_target_response, warm_target_response)
      ∷ (method_drain_target_request, drain_target_request [])
      ∷ (method_drain_target_response, drain_target_response)
      ∷ (method_close_target_request, close_target_request [])
      ∷ (method_close_target_response, close_target_response)
      ∷ (method_new_frontend_request, new_frontend_request (zero_frontend no_options))
      ∷ (method_new_frontend_response, new_frontend_response)
      ∷ (method_start_frontend_request, start_frontend_request [])
      ∷ (method_start_frontend_response, start_frontend_response)
      ∷ (method_stop_frontend_request, stop_frontend_request [])
      ∷ (method_stop_frontend_response, stop_frontend_response)
      ∷ (method_close_frontend_request, close_frontend_request [])
      ∷ (method_close_frontend_response, close_frontend_response)
      ∷ (method_frontend_should_warm_notification, frontend_should_warm_notification [])
      ∷ []
