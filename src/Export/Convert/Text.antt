-- ===== src/Export/Convert/Text.antt =====
-- Which bodies `convert` puts into the entry.
use httshark.Base.{
  ◌≡◌, true, false, ◌&&◌, none, some, List, [], arith, Bytes, pos, negsuc, length, if◌then◌else◌,
}
use httshark.Core.Entries.{HttpResponse, HttpTransaction}
use httshark.Export.Convert.{Outside, get_headers, get_headers_size, should_keep, convert}

module _ (out : Outside) (types : List Bytes) where
  -- The entry of a transaction with a response has the response's body exactly if both the
  -- response's headers and the request's headers have a content type that is to be kept, and
  -- otherwise an empty text; its sizes are those of the whole body and of the headers.
  pub convert_response_text :
      (t : HttpTransaction) (r : HttpResponse)
      → t.response ≡ some r
      → let e = convert out types t in
        (e.response.exists ≡ true)
        × (e.response.content.text ≡ (
            if should_keep out types (get_headers r.http_entry.headers)
              && should_keep out types (get_headers t.request.http_entry.headers)
            then r.http_entry.body
            else []))
        × (e.response.content.size ≡ pos (length r.http_entry.body))
        × (e.response.body_size ≡ pos (length r.http_entry.body))
        × (e.response.headers_size ≡ pos (get_headers_size r.http_entry.headers))
  unfolding convert
  convert_response_text t r h = ground arith

  -- The entry of any transaction has the request's whole body, whatever the content types are.
  convert_request_text :
      (t : HttpTransaction)
      → let e = convert out types t in
        (e.request.content.text ≡ t.request.http_entry.body)
        × (e.request.content.size ≡ pos (length t.request.http_entry.body))
        × (e.request.body_size ≡ pos (length t.request.http_entry.body))
        × (e.request.headers_size ≡ pos (get_headers_size t.request.http_entry.headers))
  unfolding convert
  convert_request_text t = ground arith

  -- Without a response the entry says so: no status, no body, a header size of -1, no duration.
  convert_no_response :
      (t : HttpTransaction)
      → t.response ≡ none
      → let e = convert out types t in
        (e.response.exists ≡ false)
        × (e.response.content.text ≡ [])
        × (e.response.body_size ≡ pos 0)
        × (e.response.headers_size ≡ negsuc 0)
        × (e.time ≡ pos 0)
  unfolding convert
  convert_no_response t h = ground arith
