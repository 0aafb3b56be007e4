-- ===== src/Tests/Email.antt =====
-- The mail with a reset link at a concrete input, over the database of Tests.Database: a template is
-- rendered as its source and its values, and the transport takes every mail.
use judge_it.Prelude.{◌≡◌, refl, List, [], ◌∷◌, ◌++◌, none, some, false}
use judge_it.Prelude.Numbers.{digits, value_of}
use judge_it.Prelude.Results.{done}
use judge_it.Prelude.Text.{Text, text, trim_start, trim_end, is_space}
use judge_it.Auth.Oauth.{send_to, send_password_reset_email}
use judge_it.Email.{
  Libraries, Value, string, number, to_number, send_mail, final_html, render_template,
}
use judge_it.Email.Reset.{mailing, mailer, dto_of, Sent, reset_mail-Sent}
use judge_it.Tests.Database.{Row, one, plain, row}
use judge_it.Users.Repository as Repository
use judge_it.Users.Service as Service

abbrev shown : List (Text × Value) → Text
shown [] = []
shown ((name, string s) ∷ vs) = name ++ (s ++ shown vs)
shown ((name, number n) ∷ vs) = name ++ n ∷ shown vs

abbrev lib : Libraries Row Text
lib = record {
  get = λ key. some (text "587");
  templates = text "/app/email/templates";
  read_file = λ path. done path;
  render = λ source values. done (source ++ shown values);
  transport = λ options mail s. (done (text "sent"), s);
}

port : to_number (some (text " 587 ")) ≡ some 587
unfolding to_number trim_start trim_end is_space digits value_of
port = refl

no_port : to_number (some (text "58x")) ≡ none
unfolding to_number trim_start trim_end is_space digits value_of
no_port = refl

abbrev mailed : Row
mailed = record row {
  token = record {
    id = 4;
    user_id = 1;
    token_hash = text "token";
    expires_at = 900100;
    used = false;
  };
}

mails : send_password_reset_email one (mailing lib plain) (text "a@b.c") row ≡ (done tt, mailed)
unfolding send_password_reset_email Service.find_by_email Repository.find_by_email send_to
    Repository.create_password_reset_token mailer send_mail final_html render_template dto_of
mails = refl

reset_mail-Sent_example :
    (host : Text) × (m : Row) × (plain.host ≡ done host)
    × Sent lib (text "a@b.c") row.u host (text "token") m mailed
reset_mail-Sent_example = reset_mail-Sent one plain lib (text "a@b.c") row.u row mailed mails refl
