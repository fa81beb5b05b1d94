-- ===== src/Http/Curl/Sample.antt =====
-- A libcurl that sends two pieces to whatever address: an instance for runs of the client.
use sr_scanner_demo.Base.{ℕ, Bool, true, false, some, [], ◌∷◌, refl, arith, Bytes, codes, List}
use sr_scanner_demo.Base.Int.{pos}
use sr_scanner_demo.Http.Curl.{Curl, Ended, IsLawful, deliver, curle_ok, curle_write_error}

abbrev pub sent : List Bytes
sent = codes "ab" ∷ codes "c" ∷ []

abbrev pub ending : Bool → Ended
ending true = record { code = curle_ok; error = [] }
ending false = record { code = curle_write_error; error = codes "refused" }

unfoldable pub perform_sent : {W : Type 0} → (Bytes → W → ℕ × W) → W → Ended × W
unfolding deliver
perform_sent write w = let (all, w') = deliver write sent w in (ending all, w')

abbrev pub two_pieces : (W : Type 0) → Curl W
two_pieces W = record {
  Handle = ℕ;
  easy_init = some 0;
  easy_reset = λ h. h;
  easy_setopt = λ h o. (curle_ok, h);
  easy_strerror = λ code. codes "error";
  getinfo_content_type = λ h. some (some (codes "text/plain"));
  getinfo_content_length_download = λ h. some (pos 3);
  getinfo_response_code = λ h. some 200;
  easy_perform = λ h write w. perform_sent write w;
}

unfoldable pub two_pieces-IsLawful : (W : Type 0) → IsLawful (two_pieces W)
unfolding perform_sent
two_pieces-IsLawful W = record {
  pieces = λ h. sent;
  code = λ h. curle_ok;
  bounded = λ h. (omega arith, (omega arith, tt));
  perform_taken = λ h write w w' e. (rw e refl, rw e refl);
  perform_refused = λ h write w w' e. (rw e refl, rw e refl);
}
