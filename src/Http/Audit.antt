-- ===== src/Http/Audit.antt =====
-- internal/audit/logger.go, and realIP, which internal/middleware/ratelimit.go has too.
use x_ui_site.Prelude.{String, str_eq, [], ◌∷◌, ◌++◌, not, if◌then◌else◌}
use x_ui_site.Prelude.Text.{before_first, before_last}
use x_ui_site.Db.Session.{World, AuditEntry}
use x_ui_site.Http.{Request}

-- realIP
unfoldable pub real_ip : Request → String
real_ip r =
    if not (str_eq (r.header "X-Forwarded-For") "")
    then before_first "," (r.header "X-Forwarded-For")
    else if not (str_eq (r.header "X-Real-IP") "")
    then r.header "X-Real-IP"
    else before_last ":" r.remote_addr

-- FromRequest
abbrev pub from_request : Request → String → String → String → AuditEntry
from_request r action resource status = record {
  action = action;
  resource = resource;
  ip = real_ip r;
  user_agent = r.header "User-Agent";
  status = status;
}

-- Logger.Log, which hands the entry to a goroutine of its own
abbrev pub log : AuditEntry → World → World
log e w = record w { audits = w.audits ++ e ∷ [] }
