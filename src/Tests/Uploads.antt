-- ===== src/Tests/Uploads.antt =====
-- Uploads to a concrete S3 client, whose environment counts the requests.
use ezdbbackup.Common.{
  ℕ, suc, ◌≡◌, ◌≢◌, refl, true, none, some, [], All, ℤ, pos, negsuc, inl, inr, ok, err,
}
use ezdbbackup.Common.{arith}
use ezdbbackup.Common.Bytes.{codes}
use ezdbbackup.Common.World.{World}
use ezdbbackup.Storage.Plan.{
  part_count_exceeds_limit, multipart_plan, plan_parts, enlarged, divide_round_up, at_least_minimum,
}
use ezdbbackup.Storage.Plan.Bounds.{
  IsPlan, multipart_plan-IsPlan, multipart_plan_total, part_count_never_exceeds,
}
use ezdbbackup.Storage.SafeError.{
  S3Error, s3_error_text, external, message, track, safe_s3_error_with_filter,
}
use ezdbbackup.Storage.SafeError.Text.{IsPrintable, s3_error_text-IsPrintable}
use ezdbbackup.Storage.SafeError.Metadata.{policy, HidesSecret, retrieved_HidesSecret}
use ezdbbackup.Storage.S3.{Target, Call, Client, new_file_uploader, Job}
use ezdbbackup.Storage.Parts.Trace.{planned}
use ezdbbackup.Storage.Parts.Tiles.{Tiles, planned-Tiles}
use ezdbbackup.Storage.Uploader.{multipart, upload}
use ezdbbackup.Storage.Uploader.Trace.{MultipartTrace, multipart-trace}
use ezdbbackup.Storage.Uploader.Requests.{Refuses, upload-Refuses}

-- every request succeeds
abbrev client : Client ℕ
client = record {
  put = λ call e. (ok (some (codes "etag")), suc e);
  create = λ call e. (ok (some (codes "id")), suc e);
  part = λ call e. (ok (some (codes "part")), suc e);
  complete =
      λ call e. (ok (some (record { location = codes "https://h/k"; etag = codes "etag" })), suc e);
  abort = λ call e. (none, suc e);
  context_error = λ e. (none, e);
  parse_request_uri = λ text. none;
}

abbrev target : Target
target = record { bucket = codes "bucket"; key = codes "key" }

-- 20 MiB in parts of 8 MiB
abbrev job : Job ℕ
job = record {
  client = client;
  filter = none;
  timeout = pos 0;
  target = target;
  source = 1;
  size = 20971520;
}

abbrev start : World ℕ Call
start = record { env = 0; calls = [] }

abbrev part_size : ℤ
part_size = pos 8388608

multipart-trace_example : MultipartTrace job part_size start (multipart job part_size start)
multipart-trace_example = multipart-trace job part_size start

three_parts : multipart_plan (pos 20971520) part_size ≡ ok (8388608, 3)
unfolding multipart_plan plan_parts enlarged at_least_minimum divide_round_up
three_parts = refl

multipart_plan-IsPlan_example : IsPlan 20971520 8388608 3
multipart_plan-IsPlan_example = multipart_plan-IsPlan 20971520 part_size three_parts

multipart_plan_total_example :
    (p : ℕ) × (n : ℕ) × (multipart_plan (pos 20971520) part_size ≡ ok (p, n))
unfolding at_least_minimum
multipart_plan_total_example = multipart_plan_total 20971520 part_size (omega arith) (omega arith)

part_count_never_exceeds_example :
    multipart_plan (pos 5497558138880) (pos 5242880) ≢ err part_count_exceeds_limit
part_count_never_exceeds_example = part_count_never_exceeds (pos 5497558138880) (pos 5242880)

planned-Tiles_example : Tiles 0 0 20971520 (planned job (codes "id") 8388608 0 3)
planned-Tiles_example = planned-Tiles job (codes "id") part_size three_parts

upload-Refuses_example :
    Refuses start (upload (some (new_file_uploader client)) target (some 1) (negsuc 0) start)
upload-Refuses_example =
    upload-Refuses (some (new_file_uploader client)) target (some 1) (negsuc 0) start (inr tt)

abbrev failure : S3Error
failure = record {
  operation = codes "put object";
  code = codes "AccessDenied";
  status = 403;
  request_id = codes "a\nb";
  host_id = [];
  cause = message "x";
}

s3_error_text-IsPrintable_example : All IsPrintable (s3_error_text failure)
s3_error_text-IsPrintable_example = s3_error_text-IsPrintable failure

retrieved_HidesSecret_example :
    HidesSecret
      (safe_s3_error_with_filter
        (codes "put object")
        (external (record {
          api_code = some (codes "AKIA");
          response_ids = some (codes "AKIA", []);
          http_status = some (pos 403);
        }))
        (some (policy (track [] (codes "AKIA", codes "S", [])) true)))
      (codes "AKIA")
retrieved_HidesSecret_example =
    retrieved_HidesSecret [] (codes "AKIA") (codes "S") [] true (codes "put object")
      (external (record {
        api_code = some (codes "AKIA");
        response_ids = some (codes "AKIA", []);
        http_status = some (pos 403);
      }))
      (codes "AKIA") refl (inl refl)
