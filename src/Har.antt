-- ===== src/Har.antt =====
-- har/har.go: the HAR file format.
use httshark.Base.{ℤ, List, [], ◌∷◌, ◌++◌, Bytes, pos, Bool}
use httshark.Go.Number.{itoa}

pub data Cookie : Type 0 where
  cookie : Cookie

pub record Timings : Type 0 where
  pub send : ℤ
  pub wait : ℤ
  pub receive : ℤ

pub record Pair : Type 0 where
  pub name : Bytes
  pub value : Bytes

pub record Content : Type 0 where
  pub size : ℤ
  pub mime_type : Bytes
  pub text : Bytes

pub record AppIdentifier : Type 0 where
  pub dst_ip : Bytes
  pub dst_port : ℤ

-- `AppId` is a pointer that `convert` sets, to an identifier of the request's own: it is the
-- identifier here, and a write through the pointer a write to the entry.
pub record Request : Type 0 where
  pub method : Bytes
  pub url : Bytes
  pub http_version : Bytes
  pub headers : List Pair
  pub query_string : List Pair
  pub cookies : List Cookie
  pub headers_size : ℤ
  pub body_size : ℤ
  pub content : Content
  pub app_id : AppIdentifier

-- `exists` is `Exists`
pub record Response : Type 0 where
  pub exists : Bool
  pub status : ℤ
  pub status_text : Bytes
  pub http_version : Bytes
  pub redirect_url : Bytes
  pub headers : List Pair
  pub headers_size : ℤ
  pub body_size : ℤ
  pub cookies : List Cookie
  pub content : Content

pub record Entry : Type 0 where
  pub started : Bytes
  pub time : ℤ
  pub request : Request
  pub response : Response
  pub timings : Timings
  pub cache : Timings

pub record Creator : Type 0 where
  pub name : Bytes
  pub version : Bytes

pub record Log : Type 0 where
  pub version : Bytes
  pub creator : Creator
  pub entries : List Entry

pub record Har : Type 0 where
  pub log : Log

-- `Empty`
unfoldable pub empty : AppIdentifier → AppIdentifier
empty a = record { dst_ip = []; dst_port = pos 0 }

-- `String`
unfoldable pub to_string : AppIdentifier → Bytes
to_string a = a.dst_ip ++ (b'_' ∷ itoa a.dst_port)

-- `GetAppId`
unfoldable pub get_app_id : Entry → Bytes
unfolding to_string
get_app_id e = to_string e.request.app_id
