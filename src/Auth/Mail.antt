-- ===== src/Auth/Mail.antt =====
-- src/core/aws/aws-ses.service.ts and src/core/notification/email.service.ts, over the client of
-- the mail service as a parameter.
use coupang_eats_backend_v.Base.{String, Option, none, some, List, [], ◌∷◌, ◌++◌, ◌<>◌}
use coupang_eats_backend_v.Http.{http}
use coupang_eats_backend_v.Action.{Action, raise, modify}

-- the fields of `SendEmailCommand`; both texts are in UTF-8
pub record Mail : Type 0 where
  pub sender : String
  pub to : String
  pub subject : String
  pub html_body : String

-- the client: the message of the error that `send` throws, where it throws
pub record SesClient : Type 0 where
  pub refusal : Mail → Option String

-- the settings that the constructors read
pub record MailConfig : Type 0 where
  pub ses_sender_email : String
  pub base_url : String

module _ (ses : SesClient) (config : MailConfig) where
  abbrev pub sent : Mail → Option String → Action (List Mail) (Unit {0})
  sent mail none = modify (λ mails. mails ++ (mail ∷ []))
  sent mail (some message) = raise (http 500 ("SES 실패: " <> message))

  abbrev pub mail_of : String → String → String → Mail
  mail_of to subject html_body = record {
    sender = config.ses_sender_email;
    to = to;
    subject = subject;
    html_body = html_body;
  }

  -- `AwsSesService.sendEmail`
  unfoldable pub send_email : String → String → String → Action (List Mail) (Unit {0})
  send_email to subject html_body =
      sent (mail_of to subject html_body) (ses.refusal (mail_of to subject html_body))

  unfoldable pub verify_url : String → String
  verify_url token = config.base_url <> "/auth/verify-email?token=" <> token

  -- the template, line by line
  unfoldable pub html_of : String → String
  html_of url =
      "\n      <div style=\"padding: 20px; border: 1px solid #ddd;\">"
      <> "\n        <h3>이메일 인증</h3>" <> "\n        <p>아래 링크를 클릭하여 인증을 완료하세요</p>"
      <> "\n        <a href=\"" <> url
      <> "\" style=\"padding: 10px; background: blue; color: white;\">인증하기</a>" <> "\n        <br>"
      <> "\n        <small>" <> url <> "</small>" <> "\n      </div>" <> "\n    "

  unfoldable pub subject_of : String → String
  subject_of nickname = "[Coupang Eats] " <> nickname <> "님, 이메일 인증을 완료해주세요."

  -- `EmailService.sendWelcomeNotification`
  unfoldable pub send_welcome_notification :
      String → String → String → Action (List Mail) (Unit {0})
  send_welcome_notification email nickname token =
      send_email email (subject_of nickname) (html_of (verify_url token))

  -- the mail that a new user gets for a token
  abbrev pub welcome : String → String → Mail
  welcome email token = mail_of email (subject_of "고객") (html_of (verify_url token))
