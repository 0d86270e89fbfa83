-- ===== src/Codec/Lsp/Books.antt =====
-- jni/lsp_tables_nb.c: the codebooks of the line spectral pairs of the narrowband mode, each entry
-- written as the byte that holds the `signed char`.
use securecom_voice.Base.{ℕ, ◌-◌, List, [], ◌∷◌, map, ltb, if◌then◌else◌}
use securecom_voice.Base.Int.{ℤ, pos, negsuc}
use securecom_voice.Codec.Lsp.{Codebooks}

-- The number that a byte stands for as a `signed char`.
abbrev pub signed_char : ℕ → ℤ
signed_char n = if ltb n 128 then pos n else negsuc (255 - n)

abbrev pub cdbk_nb : List ℤ
cdbk_nb = map signed_char (
    30 ∷ 19 ∷ 38 ∷ 34 ∷ 40 ∷ 32 ∷ 46 ∷ 43 ∷ 58 ∷ 43 ∷ 5 ∷ 238 ∷ 231 ∷ 216 ∷ 223 ∷ 201 ∷ 204 ∷ 20
    ∷ 34 ∷ 28 ∷ 236 ∷ 193 ∷ 159 ∷ 164 ∷ 61 ∷ 53 ∷ 47 ∷ 49 ∷ 53 ∷ 75 ∷ 242 ∷ 203 ∷ 179 ∷ 177 ∷ 0
    ∷ 253 ∷ 251 ∷ 19 ∷ 22 ∷ 26 ∷ 247 ∷ 203 ∷ 201 ∷ 66 ∷ 90 ∷ 72 ∷ 85 ∷ 68 ∷ 74 ∷ 52 ∷ 252 ∷ 215
    ∷ 198 ∷ 225 ∷ 238 ∷ 225 ∷ 27 ∷ 32 ∷ 30 ∷ 18 ∷ 24 ∷ 3 ∷ 8 ∷ 5 ∷ 244 ∷ 253 ∷ 26 ∷ 28 ∷ 74 ∷ 63
    ∷ 254 ∷ 217 ∷ 189 ∷ 179 ∷ 150 ∷ 182 ∷ 59 ∷ 59 ∷ 73 ∷ 65 ∷ 44 ∷ 40 ∷ 71 ∷ 72 ∷ 82 ∷ 83 ∷ 98 ∷ 88
    ∷ 89 ∷ 60 ∷ 250 ∷ 225 ∷ 209 ∷ 208 ∷ 243 ∷ 217 ∷ 247 ∷ 7 ∷ 2 ∷ 79 ∷ 255 ∷ 217 ∷ 196 ∷ 239 ∷ 87
    ∷ 81 ∷ 65 ∷ 50 ∷ 45 ∷ 19 ∷ 235 ∷ 189 ∷ 165 ∷ 169 ∷ 215 ∷ 206 ∷ 7 ∷ 18 ∷ 39 ∷ 74 ∷ 10 ∷ 225 ∷ 228
    ∷ 39 ∷ 24 ∷ 13 ∷ 23 ∷ 5 ∷ 56 ∷ 45 ∷ 29 ∷ 10 ∷ 251 ∷ 243 ∷ 245 ∷ 221 ∷ 238 ∷ 248 ∷ 246 ∷ 248
    ∷ 231 ∷ 185 ∷ 179 ∷ 235 ∷ 2 ∷ 16 ∷ 50 ∷ 63 ∷ 87 ∷ 87 ∷ 5 ∷ 224 ∷ 216 ∷ 205 ∷ 188 ∷ 0 ∷ 12 ∷ 6
    ∷ 54 ∷ 34 ∷ 5 ∷ 244 ∷ 32 ∷ 52 ∷ 68 ∷ 64 ∷ 69 ∷ 59 ∷ 65 ∷ 45 ∷ 14 ∷ 240 ∷ 225 ∷ 216 ∷ 191 ∷ 189
    ∷ 41 ∷ 49 ∷ 47 ∷ 37 ∷ 245 ∷ 204 ∷ 181 ∷ 172 ∷ 252 ∷ 57 ∷ 48 ∷ 42 ∷ 42 ∷ 33 ∷ 245 ∷ 205 ∷ 188
    ∷ 250 ∷ 13 ∷ 0 ∷ 8 ∷ 248 ∷ 26 ∷ 32 ∷ 233 ∷ 203 ∷ 0 ∷ 36 ∷ 56 ∷ 76 ∷ 97 ∷ 105 ∷ 111 ∷ 97 ∷ 255
    ∷ 228 ∷ 217 ∷ 216 ∷ 213 ∷ 202 ∷ 212 ∷ 216 ∷ 238 ∷ 35 ∷ 16 ∷ 236 ∷ 237 ∷ 228 ∷ 214 ∷ 29 ∷ 47 ∷ 38
    ∷ 74 ∷ 45 ∷ 3 ∷ 227 ∷ 208 ∷ 194 ∷ 176 ∷ 152 ∷ 223 ∷ 56 ∷ 59 ∷ 59 ∷ 10 ∷ 17 ∷ 46 ∷ 72 ∷ 84 ∷ 101
    ∷ 117 ∷ 123 ∷ 123 ∷ 106 ∷ 249 ∷ 223 ∷ 207 ∷ 205 ∷ 186 ∷ 189 ∷ 229 ∷ 225 ∷ 70 ∷ 67 ∷ 240 ∷ 194
    ∷ 171 ∷ 236 ∷ 82 ∷ 71 ∷ 86 ∷ 80 ∷ 85 ∷ 74 ∷ 237 ∷ 198 ∷ 181 ∷ 211 ∷ 227 ∷ 223 ∷ 238 ∷ 231 ∷ 45
    ∷ 57 ∷ 244 ∷ 214 ∷ 251 ∷ 12 ∷ 28 ∷ 36 ∷ 52 ∷ 64 ∷ 81 ∷ 82 ∷ 13 ∷ 247 ∷ 229 ∷ 228 ∷ 22 ∷ 3 ∷ 2
    ∷ 22 ∷ 26 ∷ 6 ∷ 250 ∷ 212 ∷ 205 ∷ 2 ∷ 15 ∷ 10 ∷ 48 ∷ 43 ∷ 49 ∷ 34 ∷ 237 ∷ 194 ∷ 172 ∷ 167 ∷ 154
    ∷ 232 ∷ 8 ∷ 17 ∷ 61 ∷ 68 ∷ 39 ∷ 24 ∷ 23 ∷ 19 ∷ 16 ∷ 251 ∷ 12 ∷ 15 ∷ 27 ∷ 15 ∷ 248 ∷ 212 ∷ 207
    ∷ 196 ∷ 238 ∷ 224 ∷ 228 ∷ 52 ∷ 54 ∷ 62 ∷ 248 ∷ 208 ∷ 179 ∷ 186 ∷ 66 ∷ 101 ∷ 83 ∷ 63 ∷ 61 ∷ 37
    ∷ 244 ∷ 206 ∷ 181 ∷ 192 ∷ 33 ∷ 17 ∷ 13 ∷ 25 ∷ 15 ∷ 77 ∷ 1 ∷ 214 ∷ 227 ∷ 72 ∷ 64 ∷ 46 ∷ 49 ∷ 31
    ∷ 61 ∷ 44 ∷ 248 ∷ 209 ∷ 202 ∷ 210 ∷ 226 ∷ 19 ∷ 20 ∷ 255 ∷ 240 ∷ 0 ∷ 16 ∷ 244 ∷ 238 ∷ 247 ∷ 230
    ∷ 229 ∷ 246 ∷ 234 ∷ 53 ∷ 45 ∷ 246 ∷ 209 ∷ 181 ∷ 174 ∷ 151 ∷ 147 ∷ 8 ∷ 25 ∷ 49 ∷ 77 ∷ 50 ∷ 65
    ∷ 114 ∷ 117 ∷ 124 ∷ 118 ∷ 115 ∷ 96 ∷ 90 ∷ 61 ∷ 247 ∷ 211 ∷ 193 ∷ 196 ∷ 181 ∷ 199 ∷ 8 ∷ 11 ∷ 20
    ∷ 29 ∷ 0 ∷ 221 ∷ 207 ∷ 213 ∷ 40 ∷ 47 ∷ 35 ∷ 40 ∷ 55 ∷ 38 ∷ 232 ∷ 180 ∷ 153 ∷ 144 ∷ 229 ∷ 3 ∷ 23
    ∷ 34 ∷ 52 ∷ 75 ∷ 8 ∷ 227 ∷ 213 ∷ 12 ∷ 63 ∷ 38 ∷ 35 ∷ 29 ∷ 24 ∷ 8 ∷ 25 ∷ 11 ∷ 1 ∷ 241 ∷ 238 ∷ 213
    ∷ 249 ∷ 37 ∷ 40 ∷ 21 ∷ 236 ∷ 200 ∷ 237 ∷ 237 ∷ 252 ∷ 254 ∷ 11 ∷ 29 ∷ 51 ∷ 63 ∷ 254 ∷ 212 ∷ 194
    ∷ 181 ∷ 167 ∷ 30 ∷ 57 ∷ 51 ∷ 74 ∷ 51 ∷ 50 ∷ 46 ∷ 68 ∷ 64 ∷ 65 ∷ 52 ∷ 63 ∷ 55 ∷ 65 ∷ 43 ∷ 18
    ∷ 247 ∷ 230 ∷ 221 ∷ 201 ∷ 187 ∷ 3 ∷ 6 ∷ 8 ∷ 17 ∷ 241 ∷ 195 ∷ 170 ∷ 159 ∷ 1 ∷ 86 ∷ 93 ∷ 74 ∷ 78
    ∷ 67 ∷ 255 ∷ 218 ∷ 190 ∷ 208 ∷ 48 ∷ 39 ∷ 29 ∷ 25 ∷ 17 ∷ 255 ∷ 13 ∷ 13 ∷ 29 ∷ 39 ∷ 50 ∷ 51 ∷ 69
    ∷ 82 ∷ 97 ∷ 98 ∷ 254 ∷ 220 ∷ 210 ∷ 229 ∷ 240 ∷ 226 ∷ 243 ∷ 252 ∷ 249 ∷ 252 ∷ 25 ∷ 251 ∷ 245
    ∷ 250 ∷ 231 ∷ 235 ∷ 33 ∷ 12 ∷ 31 ∷ 29 ∷ 248 ∷ 218 ∷ 204 ∷ 193 ∷ 188 ∷ 167 ∷ 223 ∷ 255 ∷ 10 ∷ 74
    ∷ 254 ∷ 241 ∷ 59 ∷ 91 ∷ 105 ∷ 105 ∷ 101 ∷ 87 ∷ 84 ∷ 62 ∷ 249 ∷ 223 ∷ 206 ∷ 221 ∷ 202 ∷ 209 ∷ 25
    ∷ 17 ∷ 82 ∷ 81 ∷ 243 ∷ 200 ∷ 173 ∷ 21 ∷ 58 ∷ 31 ∷ 42 ∷ 25 ∷ 72 ∷ 65 ∷ 232 ∷ 190 ∷ 165 ∷ 200 ∷ 9
    ∷ 254 ∷ 21 ∷ 10 ∷ 69 ∷ 75 ∷ 2 ∷ 232 ∷ 11 ∷ 22 ∷ 25 ∷ 28 ∷ 38 ∷ 34 ∷ 48 ∷ 33 ∷ 7 ∷ 227 ∷ 230 ∷ 17
    ∷ 15 ∷ 255 ∷ 14 ∷ 0 ∷ 254 ∷ 0 ∷ 250 ∷ 215 ∷ 189 ∷ 6 ∷ 254 ∷ 247 ∷ 19 ∷ 2 ∷ 85 ∷ 74 ∷ 234 ∷ 189
    ∷ 172 ∷ 185 ∷ 206 ∷ 3 ∷ 11 ∷ 247 ∷ 2 ∷ 62 ∷ [])

abbrev pub cdbk_nb_low1 : List ℤ
cdbk_nb_low1 = map signed_char (
    222 ∷ 204 ∷ 241 ∷ 45 ∷ 2 ∷ 23 ∷ 21 ∷ 52 ∷ 24 ∷ 223 ∷ 247 ∷ 255 ∷ 9 ∷ 212 ∷ 215 ∷ 243 ∷ 239 ∷ 44
    ∷ 22 ∷ 239 ∷ 250 ∷ 252 ∷ 255 ∷ 22 ∷ 38 ∷ 26 ∷ 16 ∷ 2 ∷ 50 ∷ 27 ∷ 221 ∷ 222 ∷ 247 ∷ 215 ∷ 6 ∷ 0
    ∷ 240 ∷ 222 ∷ 51 ∷ 8 ∷ 242 ∷ 225 ∷ 207 ∷ 15 ∷ 223 ∷ 45 ∷ 49 ∷ 33 ∷ 245 ∷ 219 ∷ 194 ∷ 202 ∷ 45
    ∷ 11 ∷ 251 ∷ 184 ∷ 11 ∷ 255 ∷ 244 ∷ 245 ∷ 24 ∷ 27 ∷ 245 ∷ 213 ∷ 46 ∷ 43 ∷ 33 ∷ 244 ∷ 247 ∷ 255
    ∷ 1 ∷ 252 ∷ 233 ∷ 199 ∷ 185 ∷ 11 ∷ 8 ∷ 16 ∷ 17 ∷ 248 ∷ 236 ∷ 225 ∷ 215 ∷ 53 ∷ 48 ∷ 240 ∷ 3 ∷ 65
    ∷ 232 ∷ 248 ∷ 233 ∷ 224 ∷ 219 ∷ 224 ∷ 207 ∷ 246 ∷ 239 ∷ 6 ∷ 38 ∷ 5 ∷ 247 ∷ 239 ∷ 210 ∷ 8 ∷ 52
    ∷ 3 ∷ 6 ∷ 45 ∷ 40 ∷ 39 ∷ 249 ∷ 250 ∷ 222 ∷ 182 ∷ 31 ∷ 8 ∷ 1 ∷ 240 ∷ 43 ∷ 68 ∷ 245 ∷ 237 ∷ 225
    ∷ 4 ∷ 6 ∷ 0 ∷ 250 ∷ 239 ∷ 240 ∷ 218 ∷ 240 ∷ 226 ∷ 2 ∷ 9 ∷ 217 ∷ 240 ∷ 255 ∷ 43 ∷ 246 ∷ 48 ∷ 3
    ∷ 3 ∷ 240 ∷ 225 ∷ 253 ∷ 62 ∷ 68 ∷ 43 ∷ 13 ∷ 3 ∷ 246 ∷ 8 ∷ 20 ∷ 200 ∷ 12 ∷ 12 ∷ 254 ∷ 238 ∷ 22
    ∷ 241 ∷ 216 ∷ 220 ∷ 1 ∷ 7 ∷ 41 ∷ 0 ∷ 1 ∷ 46 ∷ 250 ∷ 194 ∷ 252 ∷ 244 ∷ 254 ∷ 245 ∷ 173 ∷ 243
    ∷ 254 ∷ 91 ∷ 33 ∷ 246 ∷ 0 ∷ 4 ∷ 245 ∷ 240 ∷ 79 ∷ 32 ∷ 37 ∷ 14 ∷ 9 ∷ 51 ∷ 235 ∷ 228 ∷ 200 ∷ 222
    ∷ 0 ∷ 21 ∷ 9 ∷ 230 ∷ 11 ∷ 28 ∷ 214 ∷ 202 ∷ 233 ∷ 254 ∷ 241 ∷ 31 ∷ 30 ∷ 8 ∷ 217 ∷ 190 ∷ 217 ∷ 220
    ∷ 31 ∷ 228 ∷ 216 ∷ 210 ∷ 35 ∷ 40 ∷ 22 ∷ 24 ∷ 33 ∷ 48 ∷ 23 ∷ 222 ∷ 14 ∷ 40 ∷ 32 ∷ 17 ∷ 27 ∷ 253
    ∷ 25 ∷ 26 ∷ 243 ∷ 195 ∷ 239 ∷ 11 ∷ 4 ∷ 31 ∷ 60 ∷ 250 ∷ 230 ∷ 215 ∷ 192 ∷ 13 ∷ 16 ∷ 230 ∷ 54 ∷ 31
    ∷ 245 ∷ 233 ∷ 247 ∷ 245 ∷ 222 ∷ 185 ∷ 235 ∷ 222 ∷ 221 ∷ 55 ∷ 50 ∷ 29 ∷ 234 ∷ 229 ∷ 206 ∷ 218
    ∷ 57 ∷ 33 ∷ 42 ∷ 57 ∷ 48 ∷ 26 ∷ 11 ∷ 0 ∷ 207 ∷ 225 ∷ 26 ∷ 252 ∷ 242 ∷ 5 ∷ 78 ∷ 37 ∷ 17 ∷ 0 ∷ 207
    ∷ 244 ∷ 233 ∷ 26 ∷ 14 ∷ 2 ∷ 2 ∷ 213 ∷ 239 ∷ 244 ∷ 10 ∷ 248 ∷ 252 ∷ 8 ∷ 18 ∷ 12 ∷ 250 ∷ 20 ∷ 244
    ∷ 250 ∷ 243 ∷ 231 ∷ 34 ∷ 15 ∷ 40 ∷ 49 ∷ 7 ∷ 8 ∷ 13 ∷ 20 ∷ 20 ∷ 237 ∷ 234 ∷ 254 ∷ 248 ∷ 2 ∷ 51
    ∷ 205 ∷ [])

abbrev pub cdbk_nb_low2 : List ℤ
cdbk_nb_low2 = map signed_char (
    250 ∷ 53 ∷ 235 ∷ 232 ∷ 4 ∷ 26 ∷ 17 ∷ 252 ∷ 219 ∷ 25 ∷ 17 ∷ 220 ∷ 243 ∷ 31 ∷ 3 ∷ 250 ∷ 27 ∷ 15
    ∷ 246 ∷ 31 ∷ 28 ∷ 26 ∷ 246 ∷ 246 ∷ 216 ∷ 16 ∷ 249 ∷ 15 ∷ 13 ∷ 41 ∷ 247 ∷ 0 ∷ 252 ∷ 50 ∷ 250
    ∷ 249 ∷ 14 ∷ 38 ∷ 22 ∷ 0 ∷ 208 ∷ 2 ∷ 1 ∷ 243 ∷ 237 ∷ 32 ∷ 253 ∷ 196 ∷ 11 ∷ 239 ∷ 255 ∷ 232 ∷ 222
    ∷ 255 ∷ 35 ∷ 251 ∷ 229 ∷ 28 ∷ 44 ∷ 13 ∷ 25 ∷ 15 ∷ 42 ∷ 245 ∷ 15 ∷ 51 ∷ 35 ∷ 220 ∷ 20 ∷ 8 ∷ 252
    ∷ 244 ∷ 227 ∷ 19 ∷ 209 ∷ 49 ∷ 241 ∷ 252 ∷ 16 ∷ 227 ∷ 217 ∷ 14 ∷ 226 ∷ 4 ∷ 25 ∷ 247 ∷ 251 ∷ 205
    ∷ 242 ∷ 253 ∷ 216 ∷ 224 ∷ 38 ∷ 5 ∷ 247 ∷ 248 ∷ 252 ∷ 255 ∷ 234 ∷ 71 ∷ 253 ∷ 14 ∷ 26 ∷ 238 ∷ 234
    ∷ 24 ∷ 215 ∷ 231 ∷ 232 ∷ 6 ∷ 23 ∷ 19 ∷ 246 ∷ 39 ∷ 230 ∷ 229 ∷ 65 ∷ 45 ∷ 2 ∷ 249 ∷ 230 ∷ 248 ∷ 22
    ∷ 244 ∷ 16 ∷ 15 ∷ 16 ∷ 221 ∷ 251 ∷ 33 ∷ 235 ∷ 248 ∷ 0 ∷ 23 ∷ 33 ∷ 34 ∷ 6 ∷ 21 ∷ 36 ∷ 6 ∷ 249
    ∷ 234 ∷ 8 ∷ 219 ∷ 242 ∷ 31 ∷ 38 ∷ 11 ∷ 252 ∷ 253 ∷ 217 ∷ 224 ∷ 248 ∷ 32 ∷ 233 ∷ 250 ∷ 244 ∷ 16
    ∷ 20 ∷ 228 ∷ 252 ∷ 23 ∷ 13 ∷ 204 ∷ 255 ∷ 22 ∷ 6 ∷ 223 ∷ 216 ∷ 250 ∷ 4 ∷ 194 ∷ 13 ∷ 5 ∷ 230 ∷ 35
    ∷ 39 ∷ 11 ∷ 2 ∷ 57 ∷ 245 ∷ 9 ∷ 236 ∷ 228 ∷ 223 ∷ 52 ∷ 251 ∷ 250 ∷ 254 ∷ 22 ∷ 242 ∷ 240 ∷ 208
    ∷ 35 ∷ 1 ∷ 198 ∷ 20 ∷ 13 ∷ 33 ∷ 255 ∷ 182 ∷ 56 ∷ 238 ∷ 234 ∷ 225 ∷ 12 ∷ 6 ∷ 242 ∷ 4 ∷ 254 ∷ 247
    ∷ 209 ∷ 10 ∷ 253 ∷ 29 ∷ 239 ∷ 251 ∷ 61 ∷ 14 ∷ 47 ∷ 244 ∷ 2 ∷ 72 ∷ 217 ∷ 239 ∷ 92 ∷ 64 ∷ 203
    ∷ 205 ∷ 241 ∷ 226 ∷ 218 ∷ 215 ∷ 227 ∷ 228 ∷ 27 ∷ 9 ∷ 36 ∷ 9 ∷ 221 ∷ 214 ∷ 81 ∷ 235 ∷ 20 ∷ 25
    ∷ 240 ∷ 251 ∷ 239 ∷ 221 ∷ 21 ∷ 15 ∷ 228 ∷ 48 ∷ 2 ∷ 254 ∷ 9 ∷ 237 ∷ 29 ∷ 216 ∷ 30 ∷ 238 ∷ 238
    ∷ 18 ∷ 240 ∷ 199 ∷ 15 ∷ 236 ∷ 244 ∷ 241 ∷ 219 ∷ 241 ∷ 33 ∷ 217 ∷ 21 ∷ 234 ∷ 243 ∷ 35 ∷ 11 ∷ 13
    ∷ 218 ∷ 193 ∷ 29 ∷ 23 ∷ 229 ∷ 32 ∷ 18 ∷ 3 ∷ 230 ∷ 42 ∷ 33 ∷ 192 ∷ 190 ∷ 239 ∷ 16 ∷ 56 ∷ 2 ∷ 36
    ∷ 3 ∷ 31 ∷ 21 ∷ 215 ∷ 217 ∷ 8 ∷ 199 ∷ 14 ∷ 37 ∷ 254 ∷ 19 ∷ 220 ∷ 237 ∷ 233 ∷ 227 ∷ 240 ∷ 1 ∷ 253
    ∷ 248 ∷ 246 ∷ 31 ∷ 64 ∷ 191 ∷ [])

abbrev pub cdbk_nb_high1 : List ℤ
cdbk_nb_high1 = map signed_char (
    230 ∷ 248 ∷ 29 ∷ 21 ∷ 4 ∷ 19 ∷ 217 ∷ 33 ∷ 249 ∷ 220 ∷ 56 ∷ 54 ∷ 48 ∷ 40 ∷ 29 ∷ 252 ∷ 232 ∷ 214
    ∷ 190 ∷ 213 ∷ 196 ∷ 19 ∷ 254 ∷ 37 ∷ 41 ∷ 246 ∷ 219 ∷ 196 ∷ 192 ∷ 18 ∷ 234 ∷ 77 ∷ 73 ∷ 40 ∷ 25
    ∷ 4 ∷ 19 ∷ 237 ∷ 190 ∷ 254 ∷ 11 ∷ 5 ∷ 21 ∷ 14 ∷ 26 ∷ 231 ∷ 170 ∷ 252 ∷ 18 ∷ 1 ∷ 26 ∷ 219 ∷ 10
    ∷ 37 ∷ 255 ∷ 24 ∷ 244 ∷ 197 ∷ 245 ∷ 20 ∷ 250 ∷ 34 ∷ 240 ∷ 240 ∷ 42 ∷ 19 ∷ 228 ∷ 205 ∷ 53 ∷ 32
    ∷ 4 ∷ 10 ∷ 62 ∷ 21 ∷ 244 ∷ 222 ∷ 27 ∷ 4 ∷ 208 ∷ 208 ∷ 206 ∷ 207 ∷ 31 ∷ 249 ∷ 235 ∷ 214 ∷ 231
    ∷ 252 ∷ 213 ∷ 234 ∷ 59 ∷ 2 ∷ 27 ∷ 12 ∷ 247 ∷ 250 ∷ 240 ∷ 248 ∷ 224 ∷ 198 ∷ 240 ∷ 227 ∷ 251 ∷ 41
    ∷ 23 ∷ 226 ∷ 223 ∷ 210 ∷ 243 ∷ 246 ∷ 218 ∷ 52 ∷ 52 ∷ 1 ∷ 239 ∷ 247 ∷ 10 ∷ 26 ∷ 231 ∷ 250 ∷ 33
    ∷ 236 ∷ 53 ∷ 55 ∷ 25 ∷ 224 ∷ 251 ∷ 214 ∷ 23 ∷ 21 ∷ 66 ∷ 5 ∷ 228 ∷ 20 ∷ 9 ∷ 75 ∷ 29 ∷ 249 ∷ 214
    ∷ 217 ∷ 15 ∷ 3 ∷ 233 ∷ 21 ∷ 6 ∷ 11 ∷ 1 ∷ 227 ∷ 14 ∷ 63 ∷ 10 ∷ 54 ∷ 26 ∷ 232 ∷ 205 ∷ 207 ∷ 7
    ∷ 233 ∷ 205 ∷ 15 ∷ 190 ∷ 1 ∷ 60 ∷ 25 ∷ 10 ∷ 0 ∷ 226 ∷ 252 ∷ 241 ∷ 17 ∷ 19 ∷ 59 ∷ 40 ∷ 4 ∷ 251
    ∷ 33 ∷ 6 ∷ 234 ∷ 198 ∷ 186 ∷ 251 ∷ 23 ∷ 250 ∷ 60 ∷ 44 ∷ 227 ∷ 240 ∷ 209 ∷ 227 ∷ 52 ∷ 237 ∷ 50
    ∷ 28 ∷ 16 ∷ 35 ∷ 31 ∷ 36 ∷ 0 ∷ 235 ∷ 6 ∷ 21 ∷ 27 ∷ 22 ∷ 42 ∷ 7 ∷ 190 ∷ 216 ∷ 248 ∷ 7 ∷ 19 ∷ 46
    ∷ 0 ∷ 252 ∷ 60 ∷ 36 ∷ 45 ∷ 249 ∷ 227 ∷ 250 ∷ 224 ∷ 217 ∷ 2 ∷ 6 ∷ 247 ∷ 33 ∷ 20 ∷ 205 ∷ 222 ∷ 18
    ∷ 250 ∷ 19 ∷ 6 ∷ 11 ∷ 5 ∷ 237 ∷ 227 ∷ 254 ∷ 42 ∷ 245 ∷ 211 ∷ 235 ∷ 201 ∷ 57 ∷ 37 ∷ 2 ∷ 242 ∷ 189
    ∷ 240 ∷ 229 ∷ 218 ∷ 69 ∷ 48 ∷ 19 ∷ 2 ∷ 239 ∷ 20 ∷ 236 ∷ 240 ∷ 222 ∷ 239 ∷ 231 ∷ 195 ∷ 10 ∷ 73
    ∷ 45 ∷ 16 ∷ 216 ∷ 192 ∷ 239 ∷ 227 ∷ 234 ∷ 56 ∷ 17 ∷ 217 ∷ 8 ∷ 245 ∷ 8 ∷ 231 ∷ 238 ∷ 243 ∷ 237
    ∷ 8 ∷ 54 ∷ 57 ∷ 36 ∷ 239 ∷ 230 ∷ 252 ∷ 6 ∷ 235 ∷ 40 ∷ 42 ∷ 252 ∷ 20 ∷ 31 ∷ 53 ∷ 10 ∷ 222 ∷ 203
    ∷ 31 ∷ 239 ∷ 35 ∷ 0 ∷ 15 ∷ 250 ∷ 236 ∷ 193 ∷ 183 ∷ 22 ∷ 25 ∷ 29 ∷ 17 ∷ 8 ∷ 227 ∷ 217 ∷ 187 ∷ 18
    ∷ 15 ∷ 241 ∷ 251 ∷ [])

abbrev pub cdbk_nb_high2 : List ℤ
cdbk_nb_high2 = map signed_char (
    11 ∷ 47 ∷ 16 ∷ 247 ∷ 210 ∷ 224 ∷ 26 ∷ 192 ∷ 34 ∷ 251 ∷ 38 ∷ 249 ∷ 47 ∷ 20 ∷ 2 ∷ 183 ∷ 157 ∷ 253
    ∷ 211 ∷ 20 ∷ 70 ∷ 204 ∷ 15 ∷ 250 ∷ 249 ∷ 174 ∷ 31 ∷ 21 ∷ 47 ∷ 51 ∷ 39 ∷ 253 ∷ 9 ∷ 0 ∷ 215 ∷ 249
    ∷ 241 ∷ 202 ∷ 2 ∷ 0 ∷ 27 ∷ 225 ∷ 9 ∷ 211 ∷ 234 ∷ 218 ∷ 232 ∷ 232 ∷ 8 ∷ 223 ∷ 23 ∷ 5 ∷ 50 ∷ 220
    ∷ 239 ∷ 238 ∷ 205 ∷ 254 ∷ 13 ∷ 19 ∷ 43 ∷ 12 ∷ 241 ∷ 244 ∷ 61 ∷ 38 ∷ 38 ∷ 7 ∷ 13 ∷ 0 ∷ 6 ∷ 255
    ∷ 3 ∷ 62 ∷ 9 ∷ 27 ∷ 22 ∷ 223 ∷ 38 ∷ 221 ∷ 247 ∷ 30 ∷ 213 ∷ 247 ∷ 224 ∷ 255 ∷ 4 ∷ 252 ∷ 1 ∷ 251
    ∷ 245 ∷ 248 ∷ 38 ∷ 31 ∷ 11 ∷ 246 ∷ 214 ∷ 235 ∷ 219 ∷ 1 ∷ 43 ∷ 15 ∷ 243 ∷ 221 ∷ 237 ∷ 238 ∷ 15
    ∷ 23 ∷ 230 ∷ 59 ∷ 1 ∷ 235 ∷ 53 ∷ 8 ∷ 215 ∷ 206 ∷ 242 ∷ 228 ∷ 4 ∷ 21 ∷ 25 ∷ 228 ∷ 216 ∷ 5 ∷ 216
    ∷ 215 ∷ 4 ∷ 51 ∷ 223 ∷ 248 ∷ 248 ∷ 1 ∷ 17 ∷ 196 ∷ 12 ∷ 25 ∷ 215 ∷ 17 ∷ 34 ∷ 43 ∷ 19 ∷ 45 ∷ 7
    ∷ 219 ∷ 24 ∷ 241 ∷ 56 ∷ 254 ∷ 35 ∷ 246 ∷ 48 ∷ 4 ∷ 209 ∷ 254 ∷ 5 ∷ 251 ∷ 202 ∷ 5 ∷ 253 ∷ 223
    ∷ 246 ∷ 30 ∷ 254 ∷ 212 ∷ 232 ∷ 218 ∷ 9 ∷ 247 ∷ 42 ∷ 4 ∷ 6 ∷ 200 ∷ 44 ∷ 240 ∷ 9 ∷ 216 ∷ 230 ∷ 18
    ∷ 236 ∷ 10 ∷ 28 ∷ 215 ∷ 235 ∷ 252 ∷ 13 ∷ 238 ∷ 32 ∷ 226 ∷ 253 ∷ 37 ∷ 15 ∷ 22 ∷ 28 ∷ 50 ∷ 216 ∷ 3
    ∷ 227 ∷ 192 ∷ 7 ∷ 51 ∷ 237 ∷ 245 ∷ 17 ∷ 229 ∷ 216 ∷ 192 ∷ 24 ∷ 244 ∷ 249 ∷ 229 ∷ 3 ∷ 37 ∷ 48
    ∷ 255 ∷ 2 ∷ 247 ∷ 218 ∷ 222 ∷ 46 ∷ 1 ∷ 27 ∷ 250 ∷ 19 ∷ 243 ∷ 26 ∷ 10 ∷ 34 ∷ 20 ∷ 25 ∷ 40 ∷ 50
    ∷ 250 ∷ 249 ∷ 30 ∷ 9 ∷ 232 ∷ 0 ∷ 233 ∷ 71 ∷ 195 ∷ 22 ∷ 58 ∷ 222 ∷ 252 ∷ 2 ∷ 207 ∷ 223 ∷ 25 ∷ 30
    ∷ 248 ∷ 250 ∷ 240 ∷ 77 ∷ 2 ∷ 38 ∷ 248 ∷ 221 ∷ 250 ∷ 226 ∷ 56 ∷ 78 ∷ 31 ∷ 33 ∷ 236 ∷ 13 ∷ 217
    ∷ 20 ∷ 22 ∷ 4 ∷ 21 ∷ 248 ∷ 4 ∷ 250 ∷ 10 ∷ 173 ∷ 215 ∷ 9 ∷ 231 ∷ 213 ∷ 15 ∷ 249 ∷ 244 ∷ 222 ∷ 217
    ∷ 219 ∷ 223 ∷ 19 ∷ 30 ∷ 16 ∷ 223 ∷ 42 ∷ 231 ∷ 25 ∷ 188 ∷ 44 ∷ 241 ∷ 245 ∷ 252 ∷ 23 ∷ 50 ∷ 14 ∷ 4
    ∷ 217 ∷ 213 ∷ 20 ∷ 226 ∷ 60 ∷ 9 ∷ 236 ∷ 7 ∷ 16 ∷ 19 ∷ 223 ∷ 37 ∷ 29 ∷ 16 ∷ 221 ∷ 7 ∷ 38 ∷ 229
    ∷ [])

-- The tables of the decoder and the encoder.
abbrev pub nb_codebooks : Codebooks
nb_codebooks = record {
  cdbk_nb = cdbk_nb;
  cdbk_nb_low1 = cdbk_nb_low1;
  cdbk_nb_low2 = cdbk_nb_low2;
  cdbk_nb_high1 = cdbk_nb_high1;
  cdbk_nb_high2 = cdbk_nb_high2;
}
