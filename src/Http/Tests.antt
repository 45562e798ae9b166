-- ===== src/Http/Tests.antt =====
-- The HTTP functions at concrete inputs.
use tmpmail_fyi.Common.{
  if◌then◌else◌, Bytes, codes, eq_bytes, has_prefix, cut_before, pos, negsuc, ◌+◌, ◌≡◌, refl, false,
  none, some, List, [], ◌∷◌, ◌++◌, arith,
}
use tmpmail_fyi.Samples.{old_store}
use tmpmail_fyi.Store.Post.{Post}
use tmpmail_fyi.Store.Pending.Drain.{Never}
use tmpmail_fyi.Mime.Html.{HtmlLibrary}
use tmpmail_fyi.Mime.Parts.{MimeLibrary}
use tmpmail_fyi.Http.Mail.{
  replied, get_api_message, get_api_attachment, Serves, get_api_message-Serves, shown,
}
use tmpmail_fyi.Http.Page.{render_inbox}
use tmpmail_fyi.Http.Page.Selected.{ShowsInbox, render_inbox-ShowsInbox}
use tmpmail_fyi.Http.Limits.{
  AddressLibrary, Request, HttpEvent, http_run, IsAdmitting, fresh_http, http_run-IsAdmitting,
  arrives, ends,
}
use tmpmail_fyi.Http.Inbox.{list_inbox_messages, Shows, list_inbox_messages-Shows}
use tmpmail_fyi.Http.Raw.{
  two_crlf, two_lf, split_raw_message, IsRawSplit, split_raw_message-IsRawSplit,
}
use tmpmail_fyi.Http.Recorder.{
  Call, serve, fresh_recorder, IsReported, serve-sent, header_written, body_written,
}

abbrev raw_mail : Bytes
raw_mail = codes "A: b" ++ two_crlf ++ codes "text" ++ two_lf ++ codes "more"

split_raw_mail : split_raw_message raw_mail ≡ (codes "A: b", codes "text" ++ two_lf ++ codes "more")
unfolding split_raw_message has_prefix
split_raw_mail = refl

split_raw_message-IsRawSplit_example : IsRawSplit raw_mail (split_raw_message raw_mail)
split_raw_message-IsRawSplit_example = split_raw_message-IsRawSplit raw_mail

abbrev not_found : List Call
not_found = header_written 404 ∷ body_written 10 ∷ header_written 200 ∷ body_written 5 ∷ []

serve-sent_example : IsReported not_found (serve not_found fresh_recorder)
serve-sent_example = serve-sent not_found (omega arith, (tt, (omega arith, (tt, tt))))

list_inbox_messages-Shows_example :
    Post
      (λ response t.
        Shows 60 (codes "a@mail.test") old_store.db.messages response × (t ≡ old_store))
      Never
      (list_inbox_messages 60 (codes "a@mail.test") (some (pos 500)) (some (negsuc 2)) old_store [])
list_inbox_messages-Shows_example =
    list_inbox_messages-Shows 60 (codes "a@mail.test") (some (pos 500)) (some (negsuc 2)) old_store
      []

-- A message is one attachment of its whole text.
abbrev whole_message : MimeLibrary
whole_message = record {
  read_message = λ raw. some (record { header = λ name. []; body = raw });
  parse_media_type = λ value. some (record { name = codes "application/pdf"; params = λ name. [] });
  multipart = λ body boundary. [];
  decode_header = λ value. some value;
  read_all = λ body. some body;
  base64 = λ body. some body;
  quoted_printable = λ body. some body;
  charset = λ label. none;
  to_valid_utf8 = λ text. text;
  format_number = λ n. b'0' ∷ [];
}

abbrev no_html : HtmlLibrary
no_html = record { parse = λ source. none; render = λ node. []; parse_url = λ url. none }

get_api_message-Serves_example :
    Serves whole_message no_html
      (λ name. name)
      (replied (get_api_message whole_message no_html (λ name. name) 60 (codes "m9") old_store []))
      (λ index. replied (
        get_api_attachment whole_message no_html (λ name. name) 60 (codes "m9") index old_store []))
get_api_message-Serves_example =
    get_api_message-Serves whole_message no_html (λ name. name) 60 (codes "m9") old_store []

old_file_served :
    replied
      (get_api_attachment whole_message no_html (λ name. name) 60 (codes "m9") (pos 0) old_store [])
    ≡ shown (record {
      content_type = codes "application/pdf";
      disposition = codes "attachment; filename=attachment-0";
      content = codes "mail";
    })
unfolding get_api_attachment
old_file_served = refl

-- Addresses of the form 1:port, and the header of a proxy.
abbrev short_addresses : AddressLibrary
short_addresses = record {
  parse_ip = λ s. if eq_bytes s (codes "1") then some s else none;
  split_host = λ addr. some (cut_before b':' addr);
  join_port = λ ip. codes "0:" ++ ip;
}

abbrev request : Bytes → (Bytes → Bytes) → Request
request port header = record {
  method = codes "GET";
  path = codes "/";
  remote_addr = codes "1:" ++ port;
  header = header;
}

abbrev two_requests : List HttpEvent
two_requests = arrives 1 ∷ arrives 2 ∷ ends 1 ∷ arrives 3 ∷ ends 7 ∷ []

http_run-IsAdmitting_example : IsAdmitting 1 (http_run two_requests (fresh_http 1))
http_run-IsAdmitting_example = http_run-IsAdmitting 1 two_requests

render_inbox-ShowsInbox_example :
    Post
      (λ shown t.
        ShowsInbox 60 (codes "mail.test") (codes "a") 0 (codes "m9") old_store.db.messages shown)
      Never
      (render_inbox whole_message no_html
        (λ n. (b'0' + n) ∷ [])
        (λ check. false)
        60
        (codes "mail.test")
        (codes "a")
        0
        (codes "m9")
        old_store
        [])
render_inbox-ShowsInbox_example =
    render_inbox-ShowsInbox whole_message no_html (λ n. (b'0' + n) ∷ []) (λ check. false) 60
      (codes "mail.test") (codes "a") 0 (codes "m9") old_store []
