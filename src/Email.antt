-- ===== src/Email.antt =====
-- src/email/email.service.ts and src/dto/mail.dto.ts. The configuration, the file system, the template
-- compiler and the transport are parameters; log lines are left out. A port is read as a decimal
-- numeral, and names of templates have no `..`, which `path.join` would resolve.
pub mod Reset
use judge_it.Prelude.{ℕ, ◌≡◌, Bool, false, List, [], ◌∷◌, ◌++◌, Option, none, some, if◌then◌else◌}
use judge_it.Prelude.Actions.{Action, ◌>>=◌, lift}
use judge_it.Prelude.Numbers.{digits, value_of}
use judge_it.Prelude.Results.{Result, done, thrown}
use judge_it.Prelude.Text.{Text, text, is_nil, trim}
use judge_it.Auth.Service.{truthy}
use judge_it.Users.Types.{Error}

pub data Recipients : Type 0 where
  one : Text → Recipients
  several : List Text → Recipients

pub data Value : Type 0 where
  string : Text → Value
  number : ℕ → Value

pub record MailDto : Type 0 where
  pub to : Recipients
  pub subject : Text
  pub html : Option Text
  pub plain : Option Text
  pub template_name : Option Text
  pub template_data : Option (List (Text × Value))
  pub sender : Option Text

-- `nodemailer.SendMailOptions`, the fields that are set.
pub record MailOptions : Type 0 where
  pub sender : Text
  pub to : Recipients
  pub subject : Text
  pub html : Option Text
  pub plain : Option Text

-- The argument of `createTransport`; `none` is `undefined` or `NaN`.
pub record TransportOptions : Type 0 where
  pub host : Option Text
  pub port : Option ℕ
  pub secure : Bool
  pub user : Option Text
  pub pass : Option Text

pub record Libraries (S : Type 0) (Info : Type 0) : Type 0 where
  -- `config.get`
  pub get : Text → Option Text
  -- the directory of the templates, and `readFileSync`
  pub templates : Text
  pub read_file : Text → Result Error Text
  -- `Handlebars.compile` and the call of what it gives
  pub render : Text → List (Text × Value) → Result Error Text
  pub transport : TransportOptions → MailOptions → Action S Error Info

abbrev pub all_read : Text × Text → Option ℕ
all_read (ds, rest) = if is_nil rest then some (value_of 0 ds) else none

-- `Number` of a value of the configuration.
unfoldable pub to_number : Option Text → Option ℕ
unfolding trim digits
to_number none = none
to_number (some s) = all_read (digits (trim s))

-- What a template literal prints of a value that can be missing.
abbrev pub printed : Option Text → Text
printed none = text "undefined"
printed (some s) = s

abbrev pub or_default : Option Text → Text → Text
or_default none d = d
or_default (some s) d = s

abbrev pub or_no_data : Option (List (Text × Value)) → List (Text × Value)
or_no_data none = []
or_no_data (some vs) = vs

module _ {S Info : Type 0} (lib : Libraries S Info) where
  unfoldable pub mail_transport : TransportOptions
  mail_transport = record {
    host = lib.get (text "EMAIL_HOST");
    port = to_number (lib.get (text "EMAIL_PORT"));
    secure = false;
    user = lib.get (text "EMAIL_USER");
    pass = lib.get (text "EMAIL_PASSWORD");
  }

  abbrev pub template_path : Text → Text
  template_path name = lib.templates ++ (text "/" ++ (name ++ text ".html"))

  abbrev pub render_source : List (Text × Value) → Result Error Text → Result Error Text
  render_source values (done source) = lib.render source values
  render_source values (thrown e) = thrown e

  unfoldable pub render_template : Text → List (Text × Value) → Result Error Text
  render_template name replacements =
      render_source replacements (lib.read_file (template_path name))

  abbrev pub some_html : Result Error Text → Result Error (Option Text)
  some_html (done html) = done (some html)
  some_html (thrown e) = thrown e

  -- `templateName ? this.renderTemplate(…) : html`, for a name that is there and not empty.
  abbrev pub html_of : Option Text → MailDto → Result Error (Option Text)
  html_of none dto = done dto.html
  html_of (some name) dto = some_html (render_template name (or_no_data dto.template_data))

  unfoldable pub final_html : MailDto → Result Error (Option Text)
  final_html dto = html_of (truthy dto.template_name) dto

  unfoldable pub default_sender : Text
  default_sender =
      text "\""
      ++ (printed (lib.get (text "APP_NAME"))
          ++ (text "\" <" ++ (printed (lib.get (text "EMAIL_USER")) ++ text ">")))

  unfoldable pub mail_options : MailDto → Option Text → MailOptions
  mail_options dto final = record {
    sender = or_default (truthy dto.sender) default_sender;
    to = dto.to;
    subject = dto.subject;
    html = final;
    plain = dto.plain;
  }

  -- The `catch` logs what the transport threw, and throws it on.
  unfoldable pub send_mail : MailDto → Action S Error Info
  send_mail dto = do
    final ← lift (final_html dto)
    lib.transport mail_transport (mail_options dto final)
