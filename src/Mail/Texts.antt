-- ===== src/Mail/Texts.antt =====
-- app/services/email.py: the texts of the two mails.
use Prim.Native.String.{◌++◌ as ◌&◌}
use fastapi_auth_api.Base.{String, List, [], ◌∷◌}

-- Lines with a line feed between each two.
abbrev pub lines : List String → String
lines [] = ""
lines (l ∷ []) = l
lines (l ∷ next ∷ later) = l & ("\n" & lines (next ∷ later))

abbrev pub verification_text : String → String
verification_text url = lines (
    "Welcome to FastAPI Authentication API." ∷ "" ∷ "Verify your email by opening this link:" ∷ url
    ∷ "" ∷ "This link expires in 30 minutes." ∷ [])

abbrev pub reset_text : String → String
reset_text url = lines (
    "A password-reset request was received." ∷ "" ∷ "Reset your password by opening this link:"
    ∷ url ∷ "" ∷ "This link expires in 15 minutes." ∷ ""
    ∷ "Ignore this message if you did not request it." ∷ [])

abbrev pub verification_html : String → String
verification_html url = lines (
    ""
    ∷ "    <!DOCTYPE html>"
    ∷ "    <html lang=\"en\">"
    ∷ "      <body style=\"font-family: Arial, sans-serif;\">"
    ∷ "        <h2>Verify your email address</h2>"
    ∷ ""
    ∷ "        <p>"
    ∷ "          Welcome to FastAPI Authentication API."
    ∷ "        </p>"
    ∷ ""
    ∷ "        <p>"
    ∷ "          Click the button below to verify your email."
    ∷ "        </p>"
    ∷ ""
    ∷ "        <p>"
    ∷ "          <a"
    ∷ ("            href=\"" & (url & "\""))
    ∷ "            style=\""
    ∷ "              display: inline-block;"
    ∷ "              padding: 12px 20px;"
    ∷ "              background: #111827;"
    ∷ "              color: #ffffff;"
    ∷ "              text-decoration: none;"
    ∷ "              border-radius: 6px;"
    ∷ "            \""
    ∷ "          >"
    ∷ "            Verify email"
    ∷ "          </a>"
    ∷ "        </p>"
    ∷ ""
    ∷ "        <p>"
    ∷ "          This link expires in 30 minutes."
    ∷ "        </p>"
    ∷ ""
    ∷ "        <p>"
    ∷ "          If the button does not work, open:"
    ∷ "        </p>"
    ∷ ""
    ∷ ("        <p>" & (url & "</p>"))
    ∷ "      </body>"
    ∷ "    </html>"
    ∷ "    "
    ∷ [])

abbrev pub reset_html : String → String
reset_html url = lines (
    ""
    ∷ "    <!DOCTYPE html>"
    ∷ "    <html lang=\"en\">"
    ∷ "      <body style=\"font-family: Arial, sans-serif;\">"
    ∷ "        <h2>Reset your password</h2>"
    ∷ ""
    ∷ "        <p>"
    ∷ "          A password-reset request was received for your account."
    ∷ "        </p>"
    ∷ ""
    ∷ "        <p>"
    ∷ "          Click the button below to select a new password."
    ∷ "        </p>"
    ∷ ""
    ∷ "        <p>"
    ∷ "          <a"
    ∷ ("            href=\"" & (url & "\""))
    ∷ "            style=\""
    ∷ "              display: inline-block;"
    ∷ "              padding: 12px 20px;"
    ∷ "              background: #111827;"
    ∷ "              color: #ffffff;"
    ∷ "              text-decoration: none;"
    ∷ "              border-radius: 6px;"
    ∷ "            \""
    ∷ "          >"
    ∷ "            Reset password"
    ∷ "          </a>"
    ∷ "        </p>"
    ∷ ""
    ∷ "        <p>"
    ∷ "          This link expires in 15 minutes."
    ∷ "        </p>"
    ∷ ""
    ∷ "        <p>"
    ∷ "          Ignore this email if you did not request a password reset."
    ∷ "        </p>"
    ∷ ""
    ∷ "        <p>"
    ∷ "          If the button does not work, open:"
    ∷ "        </p>"
    ∷ ""
    ∷ ("        <p>" & (url & "</p>"))
    ∷ "      </body>"
    ∷ "    </html>"
    ∷ "    "
    ∷ [])
