-- ===== src/Logs.antt =====
-- What the browser reports, as it is kept: the entries of the network log, of the list of
-- JavaScript errors and of the list of intercepted requests (devbrowser.go, models.go).
use devbrowser.Prelude.{Bool, ℤ}
use devbrowser.Text.{Text}

pub record NetworkLogEntry : Type 0 where
  pub url : Text
  pub method : Text
  pub status : ℤ
  pub type : Text
  pub duration : ℤ
  pub failed : Bool
  pub error_text : Text

pub record JsError : Type 0 where
  pub message : Text
  pub source : Text
  pub line_number : ℤ
  pub column_number : ℤ
  pub stack_trace : Text
  pub timestamp : ℤ

pub record InterceptedRequest : Type 0 where
  pub url : Text
  pub method : Text
  pub request_body : Text
  pub response_body : Text
  pub status : ℤ
