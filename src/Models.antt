-- ===== src/Models.antt =====
-- internal/models: the data that the layers exchange, and the request's context.
use shortener.Base.{ℕ, String}

-- AuditAction; `no_action` is the empty string that a new AuditData holds
pub data AuditAction : Type 0 where
  no_action follow shorten : AuditAction

pub record AuditData : Type 0 where
  pub action : AuditAction
  pub url : String
  pub user_id : String

-- &models.AuditData{}
abbrev pub empty_audit_data : AuditData
empty_audit_data = record { action = no_action; url = ""; user_id = "" }

pub record AuditEvent : Type 0 where
  pub timestamp : ℕ
  pub action : AuditAction
  pub user_id : String
  pub url : String

pub record ShortenRequest : Type 0 where
  pub url : String

pub record ShortenResponse : Type 0 where
  pub result : String

pub record BatchShortenRequest : Type 0 where
  pub correlation_id : String
  pub original_url : String

pub record BatchShortenResponse : Type 0 where
  pub correlation_id : String
  pub short_url : String

pub record UserUrl : Type 0 where
  pub short_url : String
  pub original_url : String

pub record Statistics : Type 0 where
  pub urls : ℕ
  pub users : ℕ
