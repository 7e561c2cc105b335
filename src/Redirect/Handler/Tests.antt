-- ===== src/Redirect/Handler/Tests.antt =====
-- A click on a link whose capture fails.
use posta.Shared.{Option, none, some, if◌then◌else◌, str_eq}
use posta.Shared.Thrown.{Thrown, new_error}
use posta.Shared.Triples.{Triple}
use posta.Redirect.Location.{code_points}
use posta.Redirect.Capture.{absent, one}
use posta.Redirect.Handler.{link, Req, redirect_middleware}
use posta.Redirect.Handler.History.{Call, asked_salt, Oracle, IsOpen, IsAnswered}
use posta.Redirect.Handler.Steps.{deps, Never}
use posta.Redirect.Handler.Answers.{redirect_middleware-IsAnswered}

abbrev salt_fails : Call → Option Thrown
salt_fails asked_salt = some (new_error "connection lost")
salt_fails _ = none

abbrev oracle : Oracle
oracle = record {
  fails = λ h c. salt_fails c;
  tenant = λ h. some "t1";
  link =
      λ h. some (record { link_id = "l1"; tenant_id = "t1"; destination = "https://example.com/" });
  network = λ h. record { asn = none; country = some "BR" };
  text = λ h. "x";
  parse_request_target = λ host path. link "ana" "promo";
  check_destination = λ raw. some (code_points raw);
  sha256 = λ text. text;
  redact = λ text. text;
  render_not_found = λ slug. "not found";
}

abbrev click : Req
click = record {
  method = some "GET";
  path = "/promo";
  headers = λ name. if str_eq name "host" then one "ana.posta.test" else absent;
}

redirect_middleware-IsAnswered_example :
    Triple
      (IsOpen oracle)
      (redirect_middleware (deps oracle) click)
      (λ _. IsAnswered oracle)
      (Never oracle)
redirect_middleware-IsAnswered_example = redirect_middleware-IsAnswered oracle click
