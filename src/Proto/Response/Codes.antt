-- ===== src/Proto/Response/Codes.antt =====
-- The named codes of crates/nntp-proto/src/response.rs.
use rust_nntp.Prelude.{ℕ}

abbrev pub help_text_follows : ℕ
help_text_follows = 100

abbrev pub capabilities_follow : ℕ
capabilities_follow = 101

abbrev pub server_date : ℕ
server_date = 111

abbrev pub greeting_posting_allowed : ℕ
greeting_posting_allowed = 200

abbrev pub greeting_no_posting : ℕ
greeting_no_posting = 201

abbrev pub tls_continue : ℕ
tls_continue = 382

abbrev pub closing : ℕ
closing = 205

abbrev pub group_selected : ℕ
group_selected = 211

abbrev pub information_follows : ℕ
information_follows = 215

abbrev pub article_follows : ℕ
article_follows = 220

abbrev pub head_follows : ℕ
head_follows = 221

abbrev pub body_follows : ℕ
body_follows = 222

abbrev pub article_exists : ℕ
article_exists = 223

abbrev pub overview_follows : ℕ
overview_follows = 224

abbrev pub headers_follow : ℕ
headers_follow = 225

abbrev pub new_articles_follow : ℕ
new_articles_follow = 230

abbrev pub new_groups_follow : ℕ
new_groups_follow = 231

abbrev pub auth_accepted : ℕ
auth_accepted = 281

abbrev pub send_article : ℕ
send_article = 340

abbrev pub auth_password_required : ℕ
auth_password_required = 381

abbrev pub service_unavailable_temporary : ℕ
service_unavailable_temporary = 400

abbrev pub wrong_mode : ℕ
wrong_mode = 401

abbrev pub no_such_group : ℕ
no_such_group = 411

abbrev pub no_group_selected : ℕ
no_group_selected = 412

abbrev pub no_article_selected : ℕ
no_article_selected = 420

abbrev pub no_such_article_number : ℕ
no_such_article_number = 423

abbrev pub no_such_article_id : ℕ
no_such_article_id = 430

abbrev pub article_posted : ℕ
article_posted = 240

abbrev pub posting_not_permitted : ℕ
posting_not_permitted = 440

abbrev pub posting_failed : ℕ
posting_failed = 441

abbrev pub auth_required : ℕ
auth_required = 480

abbrev pub auth_rejected : ℕ
auth_rejected = 481

abbrev pub auth_out_of_sequence : ℕ
auth_out_of_sequence = 482

abbrev pub unknown_command : ℕ
unknown_command = 500

abbrev pub syntax_error : ℕ
syntax_error = 501

abbrev pub service_unavailable_permanent : ℕ
service_unavailable_permanent = 502

abbrev pub feature_not_supported : ℕ
feature_not_supported = 503
