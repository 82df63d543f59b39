-- ===== src/Tests/Mail.antt =====
-- A mail whose second session gets through, and one without a password for the server.
use fastapi_auth_api.Base.{ℕ, ◌≡◌, refl, String, Bool, [], ◌∷◌, ◌==◌}
use fastapi_auth_api.Services.{Task, send_password_reset_email}
use fastapi_auth_api.Mail.{
  MailSettings, EmailMessage, Outbox, returned, raised, password_reset_email, run_task, send_email,
  run,
}

abbrev settings : MailSettings
settings = record {
  smtp_username = "mailer";
  smtp_password = "secret";
  smtp_from_email = "";
  smtp_from_name = "API";
  frontend_url = "https://app.example.org";
}

abbrev second_only : ℕ → Bool
second_only n = n == 1

abbrev empty_outbox : Outbox
empty_outbox = record { sessions = 0; mails = [] }

abbrev task : Task String
task = send_password_reset_email "jane@x.org" "t1"

abbrev mail : EmailMessage
mail = password_reset_email settings second_only "jane@x.org" "t1"

sent_once :
    run_task settings second_only (λ t. t) task empty_outbox
    ≡ (returned, record { sessions = 2; mails = mail ∷ [] })
unfolding run_task run send_email
sent_once = refl

sender_is_username : mail.sender ≡ ("API", "mailer")
sender_is_username = refl

no_password :
    run_task (record settings { smtp_password = "" }) second_only (λ t. t) task empty_outbox
    ≡ (raised "SMTP_PASSWORD is not configured", empty_outbox)
unfolding run_task run send_email
no_password = refl
