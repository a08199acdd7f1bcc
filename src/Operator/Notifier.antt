-- ===== src/Operator/Notifier.antt =====
-- `NotifyInstanceReady` of internal/operator/notifier.go: the request that tells the server of an
-- instance, and what its body says.
pub mod Reading
use clawbake.Base.{String, Text, [], ◌++◌, codes, ◌≡◌, some}
use clawbake.Jsonutil.Json.{Json, string, object, end, field, parse}
use clawbake.Jsonutil.Merge.{marshal}

pub record Notification : Type 0 where
  pub url : Text
  pub content_type : String
  pub body : Text

abbrev pub payload : String → String → Json
payload instance_name user_id = object (
    field (codes "instanceName") (string (codes instance_name))
      (field (codes "userId") (string (codes user_id)) end))

-- The request for a server's URL.
abbrev pub notification_of : Text → String → String → Notification
notification_of server_url instance_name user_id = record {
  url = server_url ++ codes "/internal/notifications/instance-ready";
  content_type = "application/json";
  body = marshal (payload instance_name user_id);
}
