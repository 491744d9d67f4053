-- ===== src/Http/Methods.antt =====
-- The operations of net/soehttp by HTTP method: which request each makes, and the operations on
-- entities. `new_request` is http.NewRequestWithContext, and `perform` the rest of the call.
use soelib.Common.{List, Option, none, some}
use soelib.Common.Text.{String, ◌<>◌}
use soelib.Http.Wire.{Bytes, Failure}
use soelib.Http.Clients.{ServiceClient}
use soelib.Http.Remotes.{RemoteService, RequestOptions, set_headers, set_headers_with_options}
use soelib.Http.Calls.{EntityResult, ok, error, send_entity, fetch_entity}

abbrev pub Headers : Type 0
Headers = List (String × String)

-- Of `Q` are the requests of net/http.
module _ {Q : Type 0} (new_request : String → String → Option Bytes → EntityResult Q)
    (perform : Q → Headers → String → Option Bytes × Option Failure) where
  abbrev pub request_with :
      String → String → Option Bytes → Headers → String → Option Bytes × Option Failure
  request_with method url body headers operation = elim (new_request method url body) [
    | error e ↦ (none, some e)
    | ok q ↦ perform q headers operation
  ]

  module _ {C T : Type 0} (s : ServiceClient C T) where
    unfoldable pub post_with_options :
        String → Bytes → RequestOptions → Option Bytes × Option Failure
    post_with_options path body opts =
        request_with "POST" (s.base_url <> path) (some body) (set_headers_with_options opts)
          "RemotePost"

    unfoldable pub put_with_options :
        String → Bytes → RequestOptions → Option Bytes × Option Failure
    put_with_options path body opts =
        request_with "PUT" (s.base_url <> path) (some body) (set_headers_with_options opts)
          "RemotePUT"

    unfoldable pub get_with_options :
        String → Option Bytes → RequestOptions → Option Bytes × Option Failure
    get_with_options path reader opts =
        request_with "GET" (s.base_url <> path) reader (set_headers_with_options opts) "RemoteGET"

    unfoldable pub delete_with_options :
        String → Option Bytes → RequestOptions → Option Bytes × Option Failure
    delete_with_options path reader opts =
        request_with "DELETE" (s.base_url <> path) reader (set_headers_with_options opts)
          "RemoteDELETE"

    module _ {V R : Type 0} (marshal : V → EntityResult Bytes)
        (unmarshal : Bytes → EntityResult R) where
      abbrev pub post_entity_with_options : String → V → RequestOptions → EntityResult R
      post_entity_with_options path v opts =
          send_entity marshal unmarshal (λ b. post_with_options path b opts) v

      abbrev pub put_entity_with_options : String → V → RequestOptions → EntityResult R
      put_entity_with_options path v opts =
          send_entity marshal unmarshal (λ b. put_with_options path b opts) v

      abbrev pub get_entity_with_options : String → RequestOptions → EntityResult R
      get_entity_with_options path opts =
          fetch_entity marshal unmarshal (get_with_options path none opts)

      abbrev pub delete_entity_with_options : String → RequestOptions → EntityResult R
      delete_entity_with_options path opts =
          fetch_entity marshal unmarshal (delete_with_options path none opts)

  module _ {C T H : Type 0} (s : RemoteService C T H) where
    unfoldable pub post : Bytes → Option Bytes × Option Failure
    post body = request_with "POST" s.url (some body) (set_headers s) "RemotePost"

    unfoldable pub get : Option Bytes → Option Bytes × Option Failure
    get reader = request_with "GET" s.url reader (set_headers s) "RemoteGET"

    unfoldable pub delete : Option Bytes → Option Bytes × Option Failure
    delete reader = request_with "DELETE" s.url reader (set_headers s) "RemoteDELETE"

    module _ {V R : Type 0} (marshal : V → EntityResult Bytes)
        (unmarshal : Bytes → EntityResult R) where
      abbrev pub post_entity : V → EntityResult R
      post_entity v = send_entity marshal unmarshal post v

      abbrev pub get_entity : EntityResult R
      get_entity = fetch_entity marshal unmarshal (get none)

      abbrev pub delete_entity : EntityResult R
      delete_entity = fetch_entity marshal unmarshal (delete none)
