-- ===== src/Core/Replies/Tests.antt =====
-- Two answers of the core, and the theorems at them. Numbers are natural here.
use dolssh.Prelude.{ℕ, ◌≡◌, refl, true, false, not, none, some, [], ◌∷◌, ◌=ℕ=◌, String-discrete}
use dolssh.Core.Replies.Reading.{
  null, number, text, array, last, element, Fields, end, field, Values, lines_not_texts, ok, threw,
}
use dolssh.Core.Replies.Types.{podman, folder, unknown, HostContainerDetails, DirectoryListing}
use dolssh.Core.Replies.Listing.{to_directory_listing}
use dolssh.Core.Replies.Listed.{print_listing, to_directory_listing-print}
use dolssh.Core.Replies.Inspecting.{containers_inspect}
use dolssh.Core.Replies.Logs.{containers_logs}
use dolssh.Core.Replies.Printed.{items, print_details, containers_inspect-print}
use dolssh.Core.Replies.Lines.{LogRead, containers_logs-LogRead}

abbrev js : Values ℕ
js = record {
  zero = 0;
  of_count = λ n. n;
  is_truthy = λ n. not (n =ℕ= 0);
  is_finite = λ n. true;
  number_text = λ n. "a number";
  compound_text = λ x. "[object Object]";
  to_number = λ x. 0;
  trim = λ s. s;
}

abbrev details : HostContainerDetails ℕ
details = record {
  id = "c1";
  name = "web";
  runtime = podman;
  image = "nginx";
  status = "running";
  created_at = "2026-01-01";
  command = "nginx";
  entrypoint = "";
  mounts =
      record {
        type = "bind";
        source = "/srv";
        destination = "/data";
        mode = "rw";
        read_only = false;
      }
      ∷ [];
  networks = record { name = "lan"; ip_address = "10.0.0.2"; aliases = "web" ∷ "www" ∷ [] } ∷ [];
  ports =
      record {
        container_port = 80;
        protocol = "tcp";
        published_bindings =
            record { host_ip = some "0.0.0.0"; host_port = some 8080 }
            ∷ record { host_ip = none; host_port = none }
            ∷ [];
      }
      ∷ [];
  environment = record { key = "PATH"; value = "/bin" } ∷ [];
  labels = [];
}

containers_inspect-print_example : containers_inspect js (print_details details) ≡ ok details
containers_inspect-print_example = containers_inspect-print js details ((refl, (tt, tt)), tt)

abbrev log : Fields ℕ
log =
    field "runtime" (text "podman")
      (field "lines" (array (items text ("a" ∷ "b" ∷ []))) (field "cursor" null end))

containers_logs-LogRead_example : LogRead js "host" "c1" log (containers_logs js "host" "c1" log)
containers_logs-LogRead_example = containers_logs-LogRead js "host" "c1" log

log-read :
    containers_logs js "host" "c1" log
    ≡ ok record {
      host_id = "host";
      container_id = "c1";
      runtime = podman;
      lines = "a" ∷ "b" ∷ [];
      cursor = none;
    }
unfolding containers_logs String-discrete
log-read = refl

-- A line that is a number is refused.
numbered_line :
    containers_logs js "host" "c1" (field "lines" (array (element (number 1) last)) end)
    ≡ threw lines_not_texts
unfolding containers_logs String-discrete
numbered_line = refl

abbrev listing : DirectoryListing ℕ
listing = record {
  path = "/srv";
  entries =
      record {
        name = "a";
        path = "/srv/a";
        is_directory = true;
        size = 0;
        mtime = "2026-01-01";
        kind = folder;
        permissions = some "rwx";
      }
      ∷ record {
        name = "b";
        path = "/srv/b";
        is_directory = false;
        size = 7;
        mtime = "2026-01-02";
        kind = unknown;
        permissions = none;
      }
      ∷ [];
}

to_directory_listing-print_example : to_directory_listing js (print_listing listing) ≡ ok listing
unfolding String-discrete
to_directory_listing-print_example = to_directory_listing-print js listing (refl, (tt, tt))
