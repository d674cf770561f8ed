-- ===== src/Condition/Library.antt =====
-- The functions of the standard library and of minio-go that package condition calls, and whose code is
-- not in this repository: strings.ToLower, base64.StdEncoding, s3utils.CheckValidBucketName,
-- and the times and addresses of packages time and net.
use silo_pkg.Prelude.{Bool, Option}
use silo_pkg.Prelude.Bytes.{Bytes}

-- A result `none` is an error.
pub record Library : Type 1 where
  pub to_lower : Bytes → Bytes
  pub decode_base64 : Bytes → Option Bytes
  pub encode_base64 : Bytes → Bytes
  pub check_valid_bucket_name : Bytes → Bool
  -- time.Time; the texts are in the format time.RFC3339
  pub Time : Type 0
  pub parse_time : Bytes → Option Time
  pub format_time : Time → Bytes
  pub time_equal : Time → Time → Bool
  pub after : Time → Time → Bool
  pub before : Time → Time → Bool
  -- net.IP and net.IPNet
  pub Ip : Type 0
  pub IpNet : Type 0
  pub parse_ip : Bytes → Option Ip
  pub parse_cidr : Bytes → Option IpNet
  pub net_contains : IpNet → Ip → Bool
  pub net_string : IpNet → Bytes
