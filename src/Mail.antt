-- ===== src/Mail.antt =====
-- app/services/email.py and app/tasks/email.py: what a worker does with the mails that the handlers
-- queue.
pub mod Texts
pub mod Retries
use Prim.Native.String.{◌++◌ as ◌&◌}
use fastapi_auth_api.Base.{
  ℕ, zero, suc, String, Bool, true, false, Option, none, some, List, [], ◌∷◌, ◌++◌, if◌then◌else◌,
  str_eq,
}
use fastapi_auth_api.Services.{Task, send_verification_email, send_password_reset_email}
use Texts.{verification_text, verification_html, reset_text, reset_html}

-- The settings that the mails depend on.
pub record MailSettings : Type 0 where
  pub smtp_username : String
  pub smtp_password : String
  pub smtp_from_email : String
  pub smtp_from_name : String
  pub frontend_url : String

-- An `EmailMessage`; the sender is the pair that `formataddr` puts together.
pub record EmailMessage : Type 0 where
  pub subject : String
  pub sender : String × String
  pub recipient : String
  pub text_content : String
  pub html_content : String

-- The mails that the SMTP server took, and the number of sessions with it so far.
pub record Outbox : Type 0 where
  pub sessions : ℕ
  pub mails : List EmailMessage

-- How a call ends: it returns, or raises an exception with a text.
pub data Outcome : Type 0 where
  returned : Outcome
  raised : String → Outcome

-- `accepts n` says whether the SMTP server takes a mail in its session n; a session that fails,
-- wherever it does, raises.
module _ (settings : MailSettings) (accepts : ℕ → Bool) where
  abbrev pub sender_email : String
  sender_email =
      if str_eq settings.smtp_from_email ""
      then settings.smtp_username
      else settings.smtp_from_email

  abbrev pub addressed : String → String → String → String → EmailMessage
  addressed recipient subject text_content html_content = record {
    subject = subject;
    sender = (settings.smtp_from_name, sender_email);
    recipient = recipient;
    text_content = text_content;
    html_content = html_content;
  }

  -- `with smtplib.SMTP(...) as smtp: ...`
  abbrev pub session : EmailMessage → Outbox → Outcome × Outbox
  session message outbox =
      if accepts outbox.sessions
      then (
        returned,
        record { sessions = suc outbox.sessions; mails = outbox.mails ++ message ∷ [] },
      )
      else (raised "SMTP", record outbox { sessions = suc outbox.sessions })

  unfoldable pub send_email : EmailMessage → Outbox → Outcome × Outbox
  send_email message outbox =
      if str_eq settings.smtp_username ""
      then (raised "SMTP_USERNAME is not configured", outbox)
      else (if str_eq settings.smtp_password ""
          then (raised "SMTP_PASSWORD is not configured", outbox)
          else session message outbox)

  abbrev pub verification_url : String → String
  verification_url verification_token =
      settings.frontend_url & ("/verify-email" & ("?token=" & verification_token))

  abbrev pub reset_url : String → String
  reset_url reset_token = settings.frontend_url & ("/reset-password" & ("?token=" & reset_token))

  abbrev pub verification_email : String → String → EmailMessage
  verification_email recipient verification_token =
      let url = verification_url verification_token in
      addressed recipient "Verify your email address" (verification_text url)
        (verification_html url)

  abbrev pub password_reset_email : String → String → EmailMessage
  password_reset_email recipient reset_token =
      let url = reset_url reset_token in
      addressed recipient "Reset your password" (reset_text url) (reset_html url)

  -- The mail of a task. A token is a text to the mail, which `shown` gives.
  abbrev pub mail_of : {Token : Type 0} → (Token → String) → Task Token → EmailMessage
  mail_of shown (send_verification_email recipient token) =
      verification_email recipient (shown token)
  mail_of shown (send_password_reset_email recipient token) =
      password_reset_email recipient (shown token)

  abbrev pub retried : (Outbox → Outcome × Outbox) → Outcome × Outbox → Outcome × Outbox
  retried again (returned, outbox) = (returned, outbox)
  retried again (raised e, outbox) = again outbox

  -- A run of a task with the retries that are left to it: where it raises, `self.retry` has Celery
  -- run it again, or raises the exception once none is left.
  unfoldable pub run : ℕ → EmailMessage → Outbox → Outcome × Outbox
  run zero message outbox = send_email message outbox
  run (suc retries) message outbox = retried (run retries message) (send_email message outbox)

  abbrev pub max_retries : ℕ
  max_retries = 3

  unfoldable pub run_task :
      {Token : Type 0} → (Token → String) → Task Token → Outbox → Outcome × Outbox
  unfolding run
  run_task shown task = run max_retries (mail_of shown task)
