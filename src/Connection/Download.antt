-- ===== src/Connection/Download.antt =====
-- `downloadFile` of connection.h: one request, one read, and the text behind the header.
pub mod Globals
pub mod Released
use sponsoryeet.Prelude.{
  ℕ, suc, ◌+◌, ◌*◌, Bool, true, false, not, Option, none, some, [], ◌∷◌, ◌++◌, if◌then◌else◌, ◌==◌,
  ◌&&◌, drop, Bytes, codes,
}
use mathlib.Core.Option
use sponsoryeet.State.{Os, Action, ◌>>=◌, return, call}
use sponsoryeet.Connection.{Connection, open_connection, close_connection, connect, write, read}

-- Whether a text begins with another.
abbrev pub starts_with : Bytes → Bytes → Bool
starts_with [] s = true
starts_with (x ∷ xs) [] = false
starts_with (x ∷ xs) (y ∷ ys) = x == y && starts_with xs ys

-- `response.find(marker)`: where the marker first begins.
pub find_text : Bytes → Bytes → Option ℕ
find_text marker [] = if starts_with marker [] then some 0 else none
find_text marker (x ∷ xs) =
    let later = Option.map suc (find_text marker xs) in
    if starts_with marker (x ∷ xs) then some 0 else later

-- "\r\n\r\n"
abbrev pub end_of_header : Bytes
end_of_header = 13 ∷ 10 ∷ 13 ∷ 10 ∷ []

-- "\r\n"
abbrev line_end : Bytes
line_end = 13 ∷ 10 ∷ []

unfoldable pub request_text : Bytes → Bytes → Bytes
request_text hostname file_path =
    codes "GET "
    ++ (file_path
        ++ (codes " HTTP/1.1"
            ++ (line_end
                ++ (codes "Host: "
                    ++ (hostname
                        ++ (line_end
                            ++ (codes "User-Agent: fuckifiknow/1.0"
                                ++ (line_end
                                    ++ (codes "Accept: */*" ++ (line_end ++ line_end))))))))))

-- The text behind the header, or nothing if there is no end of one.
unfoldable pub body_of : Bytes → Bytes
unfolding find_text
body_of response = elim (find_text end_of_header response) [
  | none ↦ []
  | some at ↦ drop (at + 4) response
]

module _ {D W : Type 0} (os : Os W) where
  -- What happens on an open connection.
  pub fetch : Bytes → Bytes → Connection → Action D W Bytes
  fetch hostname file_path conn = do
    sent ← write os conn (request_text hostname file_path)
    if not sent
        then return []
        else (do (response, conn') ← read os (1024 * 1024) conn; return (body_of response))

  -- The connection is closed when it goes out of scope.
  unfoldable pub download_file : Bytes → ℕ → Bytes → Action D W Bytes
  unfolding fetch
  download_file hostname port file_path = do
    found ← call (os.gethostbyname hostname)
    elim found [
      | none ↦ return []
      | some host ↦ do
        conn ← open_connection os
        (connected, conn') ← connect os (record { host = host; port = port }) conn
        content ← if connected then fetch hostname file_path conn' else return []
        closed ← close_connection os conn'
        return content
    ]
