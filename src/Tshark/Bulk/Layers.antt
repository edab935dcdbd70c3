-- ===== src/Tshark/Bulk/Layers.antt =====
-- tshark/types/stdout.go: the fields that tshark is asked for, each a list of texts, empty where
-- the packet has no such field.
use httshark.Base.{List, Bytes}

pub record Layers : Type 0 where
  pub time : List Bytes
  pub tcp_stream : List Bytes
  pub body : List Bytes
  pub dst_ip : List Bytes
  pub dst_port : List Bytes
  pub is_request : List Bytes
  pub request_method : List Bytes
  pub request_version : List Bytes
  pub request_line : List Bytes
  pub request_uri : List Bytes
  pub is_response : List Bytes
  pub response_version : List Bytes
  pub response_code : List Bytes
  pub response_line : List Bytes

pub record Source : Type 0 where
  pub layers : Layers

pub record Stdout : Type 0 where
  pub source : Source
