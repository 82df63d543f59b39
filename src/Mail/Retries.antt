-- ===== src/Mail/Retries.antt =====
-- What the retries of a mail come to.
use fastapi_auth_api.Base.{
  ℕ, zero, suc, ◌≡◌, refl, sym, ◌∙◌, String, Bool, true, false, inl, inr, [], ◌∷◌, ◌++◌,
  if◌then◌else◌, str_eq, Bool-cases, ◌||◌,
}
use mathlib.Core.List.{append-nil}
use fastapi_auth_api.Services.{Task}
use fastapi_auth_api.Mail.{
  MailSettings, EmailMessage, Outbox, returned, raised, session, send_email, run, run_task, mail_of,
}

-- One of this many sessions from the next one on takes a mail.
abbrev pub some_accepts : (ℕ → Bool) → ℕ → ℕ → Bool
some_accepts accepts zero n = false
some_accepts accepts (suc k) n = accepts n || some_accepts accepts k (suc n)

module _ (settings : MailSettings) (accepts : ℕ → Bool)
    (has_username : str_eq settings.smtp_username "" ≡ false)
    (has_password : str_eq settings.smtp_password "" ≡ false) where
  send_session :
      (message : EmailMessage) (outbox : Outbox)
      → send_email settings accepts message outbox ≡ session settings accepts message outbox
  unfolding send_email
  send_session message outbox = rw (has_username, has_password) refl

  send_taken :
      (message : EmailMessage) (outbox : Outbox)
      → accepts outbox.sessions ≡ true
      → send_email settings accepts message outbox ≡ (
        returned,
        record { sessions = suc outbox.sessions; mails = outbox.mails ++ message ∷ [] },
      )
  send_taken message outbox e = send_session message outbox ∙ (rw (e) refl)

  send_refused :
      (message : EmailMessage) (outbox : Outbox)
      → accepts outbox.sessions ≡ false
      → send_email settings accepts message outbox
        ≡ (raised "SMTP", record outbox { sessions = suc outbox.sessions })
  send_refused message outbox e = send_session message outbox ∙ (rw (e) refl)

  run_mails :
      (retries : ℕ) (message : EmailMessage) (outbox : Outbox)
      → (run settings accepts retries message outbox).1.mails
        ≡ outbox.mails
          ++ (if some_accepts accepts (suc retries) outbox.sessions then message ∷ [] else [])
  unfolding run
  run_mails zero message outbox = elim (Bool-cases (accepts outbox.sessions)) [
    | inl e ↦ rw (send_taken message outbox e, e) refl
    | inr e ↦ rw (send_refused message outbox e, e) (sym (append-nil outbox.mails))
  ]
  run_mails (suc retries) message outbox =
      let later = record outbox { sessions = suc outbox.sessions } in
      elim (Bool-cases (accepts outbox.sessions)) [
        | inl e ↦ rw (send_taken message outbox e, e) refl
        | inr e ↦ rw (send_refused message outbox e, e) (run_mails retries message later)
      ]

  -- Once the credentials of the SMTP server are set, a task sends its mail once if one of its four
  -- runs gets through, and not at all if none does.
  pub run_task_mails :
      {Token : Type 0} (shown : Token → String) (task : Task Token) (outbox : Outbox)
      → (run_task settings accepts shown task outbox).1.mails
        ≡ outbox.mails
          ++ (if some_accepts accepts 4 outbox.sessions
              then mail_of settings accepts shown task ∷ []
              else [])
  unfolding run_task
  run_task_mails shown task = run_mails 3 (mail_of settings accepts shown task)
