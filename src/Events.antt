-- ===== src/Events.antt =====
-- src/events.rs: the payloads that the parts of the plugin exchange.
use nexo_plugin_email.Base.{ℕ, Bool, Str, Option, List, Map}

pub record AddressEntry : Type 0 where
  pub address : Str
  pub name : Option Str

-- Times are Unix seconds; `headers_extra` has lowercased names.
pub record EmailMeta : Type 0 where
  pub message_id : Option Str
  pub in_reply_to : Option Str
  pub references : List Str
  pub from : AddressEntry
  pub to : List AddressEntry
  pub cc : List AddressEntry
  pub subject : Str
  pub body_text : Str
  pub body_html : Option Str
  pub date : ℕ
  pub headers_extra : Map Str Str
  pub body_truncated : Bool

pub data AttachmentDisposition : Type 0 where
  inline attachment : AttachmentDisposition

pub record EmailAttachment : Type 0 where
  pub sha256 : Str
  pub local_path : Str
  pub size_bytes : ℕ
  pub mime_type : Str
  pub filename : Option Str
  pub content_id : Option Str
  pub disposition : AttachmentDisposition
  pub truncated : Bool

pub record InboundEvent : Type 0 where
  pub account_id : Str
  pub instance_id : Str
  pub uid : ℕ
  pub internal_date : ℕ
  pub raw_bytes : List ℕ
  pub meta : Option EmailMeta
  pub attachments : List EmailAttachment
  pub thread_root_id : Option Str

pub record OutboundAttachmentRef : Type 0 where
  pub data_path : Str
  pub data_inline : Option (List ℕ)
  pub filename : Str
  pub mime_type : Option Str
  pub content_id : Option Str
  pub disposition : AttachmentDisposition

pub record OutboundCommand : Type 0 where
  pub to : List Str
  pub cc : List Str
  pub bcc : List Str
  pub subject : Str
  pub body : Str
  pub in_reply_to : Option Str
  pub references : List Str
  pub attachments : List OutboundAttachmentRef
  pub message_id : Option Str

pub data AckStatus : Type 0 where
  sent failed retrying : AckStatus

pub record OutboundAck : Type 0 where
  pub message_id : Str
  pub status : AckStatus
  pub reason : Option Str
